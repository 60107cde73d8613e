-- ===== src/Hal/Mounting.antt =====
-- hal/hal_lib.c: `hal_add_funct_to_thread` and `hal_del_funct_from_thread`. The entries of a thread
-- are a ring around the root in the thread: cursor 0 is the root and cursor k the k-th entry.
mod Tests
pub mod Position
pub mod Users
pub mod Unmounting
pub mod Calls
pub mod Starving
use Prim.Native.Nat.{Ordering}
use mathlib.Core.Option
use real_time_system.Common.{
  ℕ, zero, suc, ◌+◌, ◌-◌, Bool, true, false, ◌&&◌, not, Option, none, some, List, [], ◌∷◌, map, ltb,
  ◌==◌, if◌then◌else◌, length, einval, eperm, Result, ok, err, Outcome, done, hang, fault,
}
use real_time_system.Common.Names.{Name, strcmp}
use real_time_system.Common.Int.{ℤ, pos, negsuc}
use real_time_system.Hal.Data.{HalData, Sizes, Funct, Entry, Thread, hal_lock_config}
use real_time_system.Hal.Sorted.{find_by_name}
use real_time_system.Hal.Structs.{alloc_funct_entry_struct, free_funct_entry_struct}
use real_time_system.Hal.Calls.{needs_data, locked, is_locked}

-- `list_next` and `list_prev`, in a ring with n entries.
abbrev list_next : ℕ → ℕ → ℕ
list_next n k = if k == n then 0 else k + 1

abbrev list_prev : ℕ → ℕ → ℕ
list_prev n k = if k == 0 then n else k - 1

-- A number of steps, none of which may end at the root.
unfoldable pub steps : (ℕ → ℕ) → ℕ → ℕ → Option ℕ
steps move zero k = some k
steps move (suc m) k = if move k == 0 then none else steps move m (move k)

-- The entry after which the new one goes. The loops make |position| - 1 steps.
unfoldable pub insertion_point : ℤ → ℕ → Option ℕ
unfolding steps
insertion_point (pos zero) n = none
insertion_point (pos (suc m)) n = steps (list_next n) m 0
insertion_point (negsuc m) n = Option.map (list_prev n) (steps (list_prev n) m 0)

-- `list_add_after`
unfoldable pub list_add_after : ℕ → Entry → List Entry → List Entry
list_add_after zero x es = x ∷ es
list_add_after (suc k) x [] = x ∷ []
list_add_after (suc k) x (e ∷ es) = e ∷ list_add_after k x es

-- A change of the entries of the thread that a name leads to.
unfoldable pub change_entries : Name → (List Entry → List Entry) → List Thread → List Thread
change_entries n f [] = []
change_entries n f (t ∷ ts) = elim (strcmp t.name n) [
  | Ordering.eq ↦ record t { funct_list = f t.funct_list } ∷ ts
  | _ ↦ t ∷ change_entries n f ts
]

-- `funct->users++` on the function at an offset.
abbrev pub add_user : ℕ → Funct → Funct
add_user off f = if f.off == off then record f { users = f.users + 1 } else f

abbrev pub entry_of : Funct → Entry → Entry
entry_of f e = record e { funct_ptr = f.off; arg = f.arg; funct = f.funct }

abbrev pub mounted : Funct → Name → ℕ → Option (Entry × HalData) → Outcome (Result ℕ × HalData)
mounted f n k none = fault
mounted f n k (some (e, d)) = done (
  ok 0,
  record d {
    thread_list = change_entries n (list_add_after k (entry_of f e)) d.thread_list;
    funct_list = map (add_user f.off) d.funct_list;
  },
)

abbrev pub add_funct_at : Sizes → Funct → Name → HalData → Option ℕ → Outcome (Result ℕ × HalData)
add_funct_at sizes f n d none = done (err einval, d)
add_funct_at sizes f n d (some k) = mounted f n k (alloc_funct_entry_struct sizes d)

abbrev pub find_thread : Name → HalData → Option Thread
find_thread n d = find_by_name (λ (t : Thread). t.name) n d.thread_list

abbrev pub find_funct : Name → HalData → Option Funct
find_funct n d = find_by_name (λ (f : Funct). f.name) n d.funct_list

-- From the test of the thread that was found on, and from the test of the function on.
abbrev pub add_funct_to :
    Sizes → Funct → Name → ℤ → HalData → Option Thread → Outcome (Result ℕ × HalData)
add_funct_to sizes f n position d none = done (err einval, d)
add_funct_to sizes f n position d (some t) =
    if ltb 0 f.uses_fp && t.uses_fp == 0
    then done (err einval, d)
    else add_funct_at sizes f n d (insertion_point position (length t.funct_list))

abbrev pub add_found : Sizes → Name → ℤ → HalData → Option Funct → Outcome (Result ℕ × HalData)
add_found sizes n position d none = done (err einval, d)
add_found sizes n position d (some f) =
    if ltb 0 f.users && f.reentrant == 0
    then done (err einval, d)
    else add_funct_to sizes f n position d (find_thread n d)

-- What the call does under the mutex. The position is tested first, then the names.
unfoldable pub add_funct :
    Sizes → Option Name → Option Name → ℤ → HalData → Outcome (Result ℕ × HalData)
add_funct sizes _ _ (pos zero) d = done (err einval, d)
add_funct sizes none _ position d = done (err einval, d)
add_funct sizes (some _) none position d = done (err einval, d)
add_funct sizes (some fname) (some n) position d = add_found sizes n position d (find_funct fname d)

unfoldable pub hal_add_funct_to_thread :
    Sizes → Option Name → Option Name → ℤ → Option HalData → Outcome (Result ℕ × Option HalData)
hal_add_funct_to_thread sizes fname n position = needs_data (λ d.
    if is_locked hal_lock_config d
    then done (err eperm, d)
    else locked (add_funct sizes fname n position) d)

-- The first entry that calls the function at an offset, and the entries without it.
unfoldable pub take_call : ℕ → List Entry → Option (Entry × List Entry)
take_call off [] = none
take_call off (e ∷ es) =
    if e.funct_ptr == off
    then some (e, es)
    else Option.map (λ (r : Entry × List Entry). (r.0, e ∷ r.1)) (take_call off es)

abbrev pub unmounted : Name → HalData → Option (Entry × List Entry) → Outcome (Result ℕ × HalData)
unmounted n d none = done (err einval, d)
unmounted n d (some (e, es)) = done (
  ok 0,
  free_funct_entry_struct e (record d { thread_list = change_entries n (λ _. es) d.thread_list }),
)

abbrev pub del_funct_from : Funct → Name → HalData → Option Thread → Outcome (Result ℕ × HalData)
del_funct_from f n d none = done (err einval, d)
del_funct_from f n d (some t) = unmounted n d (take_call f.off t.funct_list)

abbrev pub del_found : Name → HalData → Option Funct → Outcome (Result ℕ × HalData)
del_found n d none = done (err einval, d)
del_found n d (some f) =
    if f.users == 0 then done (err einval, d) else del_funct_from f n d (find_thread n d)

unfoldable pub del_funct : Option Name → Option Name → HalData → Outcome (Result ℕ × HalData)
del_funct none _ d = done (err einval, d)
del_funct (some _) none d = done (err einval, d)
del_funct (some fname) (some n) d = del_found n d (find_funct fname d)

unfoldable pub hal_del_funct_from_thread :
    Option Name → Option Name → Option HalData → Outcome (Result ℕ × Option HalData)
hal_del_funct_from_thread fname n =
    needs_data (λ d.
      if is_locked hal_lock_config d then done (err eperm, d) else locked (del_funct fname n) d)
