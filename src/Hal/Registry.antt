-- ===== src/Hal/Registry.antt =====
-- hal/hal_lib.c: what the calls promise that enter a new structure into a list in order of names.
use mathlib.Core.Path.{subst}
use real_time_system.Common.{
  ℕ, ◌+◌, ◌≡◌, ◌≢◌, refl, sym, Bool, true, false, Option, some, List, if◌then◌else◌, Errno, Result,
  ok, err, Outcome, done, hang, fault,
}
use real_time_system.Common.Names.{Name, snprintf}
use real_time_system.Hal.Data.{HalData, hal_name_len}
use real_time_system.Hal.Sorted.{
  insert_sorted, find_by_name, IsSorted, insert_sorted-IsSorted, find-insert_sorted,
}
use real_time_system.Hal.Calls.{locked, unlock, keep}

-- The name as the structures hold it.
abbrev pub stored : Name → Name
stored name = snprintf (hal_name_len + 1) name

-- The names of the structures, and the list of them in the shared data.
module _ {A : Type 0} (name_of : A → Name) (list_of : HalData → List A)
    (unlocked : (d : HalData) (b : Bool) → list_of (record d { mutex = b }) ≡ list_of d) where
  -- The list is in order again, and is the old one after an error. After success the new name leads
  -- to a structure with the data asked for, and the other names to what they led to.
  abbrev pub Places : Name → (A → Type 0) → HalData → Outcome (Result ℕ × HalData) → Type 0
  Places n Asked d (done (ok r, d')) =
      IsSorted name_of (list_of d')
      × (x : A) × (find_by_name name_of n (list_of d') ≡ some x)
      × Asked x
      × ((m : Name)
          → m ≢ n
          → find_by_name name_of m (list_of d') ≡ find_by_name name_of m (list_of d))
  Places n Asked d (done (err e, d')) = list_of d' ≡ list_of d
  Places n Asked d hang = ⊥
  Places n Asked d fault = ⊥

  pub inserted-Places :
      (Asked : A → Type 0) (x : A) (d d1 d' : HalData) (xs : List A) (r : ℕ)
      → insert_sorted name_of x (list_of d1) ≡ some xs
      → list_of d1 ≡ list_of d
      → list_of d' ≡ xs
      → IsSorted name_of (list_of d)
      → Asked x
      → Places (name_of x) Asked d (done (ok r, d'))
  inserted-Places Asked x d d1 d' xs r q k e s a =
      let (found, others) = find-insert_sorted name_of x (list_of d1) xs q in
      rw e (
        insert_sorted-IsSorted name_of x (list_of d1) xs q (subst (IsSorted name_of) (sym k) s),
        x,
        found,
        a,
        λ m ne. rw (others m ne, k) refl,
      )

  pub Places-if :
      (n : Name) (Asked : A → Type 0) (d : HalData) (c : Bool) (e : Errno)
      (o : Outcome (Result ℕ × HalData))
      → Places n Asked d o
      → Places n Asked d (if c then done (err e, d) else o)
  Places-if n Asked d true e o x = refl
  Places-if n Asked d false e o x = x

  -- The call returns with the mutex free, the data is mapped as before, and the list is as above.
  abbrev pub Kept : Name → (A → Type 0) → HalData → Outcome (Result ℕ × Option HalData) → Type 0
  Kept n Asked d (done (r, some d')) = (d'.mutex ≡ false) × Places n Asked d (done (r, d'))
  Kept n Asked d _ = ⊥

  relocked :
      (n : Name) (Asked : A → Type 0) (d d1 : HalData) (b : Bool) (r : Result ℕ)
      → Places n Asked d (done (r, d1))
      → Places n Asked d (done (r, record d1 { mutex = b }))
  relocked n Asked d d1 b (ok r) p = rw (unlocked d1 b) p
  relocked n Asked d d1 b (err e) p = rw (unlocked d1 b) p

  unlock-Kept :
      (n : Name) (Asked : A → Type 0) (d : HalData) (o : Outcome (Result ℕ × HalData))
      → Places n Asked d o
      → Kept n Asked d (keep (unlock o))
  unlock-Kept n Asked d (done (r, d1)) a = (refl, relocked n Asked d d1 false r a)
  unlock-Kept n Asked d hang a = a
  unlock-Kept n Asked d fault a = a

  pub Kept-if :
      (n : Name) (Asked : A → Type 0) (d : HalData) (c : Bool) (e : Errno)
      (o : Outcome (Result ℕ × HalData))
      → d.mutex ≡ false
      → Kept n Asked d (keep o)
      → Kept n Asked d (keep (if c then done (err e, d) else o))
  Kept-if n Asked d true e o m x = (m, refl)
  Kept-if n Asked d false e o m x = x

  pub locked-Kept :
      (n : Name) (Asked : A → Type 0) (d : HalData) (body : HalData → Outcome (Result ℕ × HalData))
      → d.mutex ≡ false
      → Places n Asked d (body (record d { mutex = true }))
      → Kept n Asked d (keep (locked body d))
  locked-Kept n Asked d body m p =
      rw (m, if◌then◌else◌, keep, Kept) (unlock-Kept n Asked d (body (record d { mutex = true })) p)
