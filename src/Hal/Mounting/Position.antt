-- ===== src/Hal/Mounting/Position.antt =====
-- Where a new entry is put in the list of a thread.
use real_time_system.Common.{
  ℕ, zero, suc, ◌+◌, ◌-◌, ◌<◌, ◌≤◌, ◌≡◌, ◌≢◌, ◌↔◌, refl, none, some, List, [], ◌∷◌, leb,
  if◌then◌else◌, length, get_elem?, arith,
}
use real_time_system.Common.Int.{ℤ, pos, negsuc}
use real_time_system.Hal.Data.{Entry}
use real_time_system.Hal.Mounting.{steps, list_next, list_prev, insertion_point, list_add_after}

forward :
    (n m k : ℕ) → k ≤ n → steps (list_next n) m k ≡ (if leb (k + m) n then some (k + m) else none)
unfolding steps
forward n zero k h = ground arith
forward n (suc m) k h = ground (arith, forward n m (k + 1))

backward :
    (n m k : ℕ)
    → k ≤ n
    → steps (list_prev n) m (k + 1) ≡ (if leb m k then some (k + 1 - m) else none)
unfolding steps
backward n zero k h = ground arith
backward n (suc m) zero h = ground arith
backward n (suc m) (suc k) h = ground (arith, backward n m k)

point_forward : (m n : ℕ) → insertion_point (pos (suc m)) n ≡ (if leb m n then some m else none)
unfolding insertion_point
point_forward m n = ground (arith, forward n m 0)

point_backward : (m n : ℕ) → insertion_point (negsuc m) n ≡ (if leb m n then some (n - m) else none)
unfolding insertion_point steps
point_backward zero n = ground arith
point_backward (suc m) zero = ground arith
point_backward (suc m) (suc n) = ground (arith, backward (suc n) m n)

-- The index, from 0, of a position in a list of n entries: from the front at 1, 2, …, and from the
-- end at -1, -2, ….
abbrev pub index_of : ℤ → ℕ → ℕ
index_of (pos p) n = p - 1
index_of (negsuc m) n = n - (m + 1)

abbrev pub IsPosition : ℤ → ℕ → Type 0
IsPosition (pos p) n = (0 < p) × (p ≤ n)
IsPosition (negsuc m) n = m < n

-- In a list of n entries the walk finds a place exactly for the positions 1 to n + 1 from the front and
-- -1 to -(n + 1) from the end.
pub insertion_point_iff :
    (position : ℤ) (n : ℕ) → (insertion_point position n ≢ none) ↔ IsPosition position (n + 1)
unfolding insertion_point
insertion_point_iff (pos zero) n = ground arith
insertion_point_iff (pos (suc m)) n = ground (arith, point_forward m n)
insertion_point_iff (negsuc m) n = ground (arith, point_backward m n)

get_elem?-list_add_after :
    (k : ℕ) (x : Entry) (es : List Entry)
    → k ≤ length es
    → get_elem? (list_add_after k x es) k ≡ some x
unfolding list_add_after
get_elem?-list_add_after zero x es h = refl
get_elem?-list_add_after (suc k) x [] h = ground arith
get_elem?-list_add_after (suc k) x (e ∷ es) h = ground (arith, get_elem?-list_add_after k x es)

-- Where the walk finds a place, the new entry stands at the position asked for in the new list,
-- counted from 1 at the front, or from -1 at the end.
pub add-IsAt :
    (position : ℤ) (x : Entry) (es : List Entry) (k : ℕ)
    → insertion_point position (length es) ≡ some k
    → get_elem? (list_add_after k x es) (index_of position (length es + 1)) ≡ some x
unfolding insertion_point
add-IsAt (pos zero) x es k e = ground arith
add-IsAt (pos (suc m)) x es k e =
    ground (arith, point_forward m (length es), get_elem?-list_add_after k x es)
add-IsAt (negsuc m) x es k e =
    ground (arith, point_backward m (length es), get_elem?-list_add_after k x es)
