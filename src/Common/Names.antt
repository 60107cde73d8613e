-- ===== src/Common/Names.antt =====
-- C strings as their bytes without the final zero, `strcmp`, and what `snprintf` leaves of a text.
use Prim.Native.Nat.{compare, Ordering}
use real_time_system.Common.{ℕ, ◌-◌, ◌≡◌, refl, List, [], ◌∷◌, arith, take}

abbrev pub Name : Type 0
Name = List ℕ

-- The sign of `strcmp`.
abbrev pub strcmp : Name → Name → Ordering
strcmp [] [] = Ordering.eq
strcmp [] (y ∷ ys) = Ordering.lt
strcmp (x ∷ xs) [] = Ordering.gt
strcmp (x ∷ xs) (y ∷ ys) = elim (compare x y) [
  | Ordering.lt ↦ Ordering.lt
  | Ordering.eq ↦ strcmp xs ys
  | Ordering.gt ↦ Ordering.gt
]

-- `snprintf(buf, size, "%s", text)`: at most `size - 1` bytes.
abbrev pub snprintf : ℕ → Name → Name
snprintf size text = take (size - 1) text

pub strcmp_self : (a : Name) → strcmp a a ≡ Ordering.eq
strcmp_self [] = refl
strcmp_self (x ∷ xs) = ground (arith, strcmp_self xs)

pub eq_of_strcmp : (a b : Name) → strcmp a b ≡ Ordering.eq → a ≡ b
eq_of_strcmp [] [] h = refl
eq_of_strcmp [] (y ∷ ys) h = ground arith
eq_of_strcmp (x ∷ xs) [] h = ground arith
eq_of_strcmp (x ∷ xs) (y ∷ ys) h = ground (arith, eq_of_strcmp xs ys)

pub strcmp-flip : (a b : Name) → strcmp a b ≡ Ordering.gt → strcmp b a ≡ Ordering.lt
strcmp-flip [] [] h = ground arith
strcmp-flip [] (y ∷ ys) h = ground arith
strcmp-flip (x ∷ xs) [] h = refl
strcmp-flip (x ∷ xs) (y ∷ ys) h = ground (arith, strcmp-flip xs ys)

pub strcmp_trans :
    (a b c : Name) → strcmp a b ≡ Ordering.lt → strcmp b c ≡ Ordering.lt → strcmp a c ≡ Ordering.lt
strcmp_trans [] [] c h k = ground arith
strcmp_trans [] (y ∷ ys) [] h k = ground arith
strcmp_trans [] (y ∷ ys) (z ∷ zs) h k = refl
strcmp_trans (x ∷ xs) [] c h k = ground arith
strcmp_trans (x ∷ xs) (y ∷ ys) [] h k = ground arith
strcmp_trans (x ∷ xs) (y ∷ ys) (z ∷ zs) h k = ground (arith, strcmp_trans xs ys zs)
