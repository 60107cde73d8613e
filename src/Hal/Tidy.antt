-- ===== src/Hal/Tidy.antt =====
-- hal/hal_lib.c: the lists of functions, pins and parameters are in order of their names, before and
-- after each call that enters a structure into one of them.
pub mod Registering
pub mod Calls
mod Tests
use mathlib.Core.Path.{subst}
use real_time_system.Common.{
  ℕ, ◌≡◌, Bool, true, false, Option, none, some, List, [], ◌∷◌, map, if◌then◌else◌, Errno, Result,
  ok, err, Outcome, done, hang, fault, refl, ap, ◌∙◌, sym,
}
use real_time_system.Common.Names.{Name, strcmp}
use real_time_system.Hal.Data.{HalData, Funct, Pin, Param}
use real_time_system.Hal.Sorted.{IsSorted, Above}
use real_time_system.Hal.Structs.Same.{SameLists}
use real_time_system.Hal.Calls.{locked, unlock, keep}

abbrev pub IsTidy : HalData → Type 0
IsTidy d =
    IsSorted (λ (f : Funct). f.name) d.funct_list
    × IsSorted (λ (p : Pin). p.name) d.pin_list
    × IsSorted (λ (p : Param). p.name) d.param_list

-- The call returns, with tidy data.
abbrev pub Tidies : Outcome (Result ℕ × HalData) → Type 0
Tidies (done (r, d)) = IsTidy d
Tidies _ = ⊥

-- The library has its data, with the mutex free and tidy lists.
abbrev pub IsFree : Option HalData → Type 0
IsFree none = ⊥
IsFree (some d) = (d.mutex ≡ false) × IsTidy d

-- The call returns and leaves the data so.
abbrev pub Frees : {A : Type 0} → Outcome (A × Option HalData) → Type 0
Frees (done (r, h)) = IsFree h
Frees _ = ⊥

pub Tidies-if :
    (c : Bool) (e : Errno) (d : HalData) (o : Outcome (Result ℕ × HalData))
    → IsTidy d
    → Tidies o
    → Tidies (if c then done (err e, d) else o)
Tidies-if true e d o t u = t
Tidies-if false e d o t u = u

-- Guards before the mutex.
abbrev pub Opens : Outcome (Result ℕ × HalData) → Type 0
Opens (done (r, d)) = (d.mutex ≡ false) × IsTidy d
Opens _ = ⊥

pub Opens-if :
    (c : Bool) (e : Errno) (d : HalData) (o : Outcome (Result ℕ × HalData))
    → (d.mutex ≡ false) × IsTidy d
    → Opens o
    → Opens (if c then done (err e, d) else o)
Opens-if true e d o t u = t
Opens-if false e d o t u = u

unlock-Opens : (o : Outcome (Result ℕ × HalData)) → Tidies o → Opens (unlock o)
unlock-Opens (done (r, d)) t = (refl, t)
unlock-Opens hang t = t
unlock-Opens fault t = t

pub locked-Opens :
    (body : HalData → Outcome (Result ℕ × HalData)) (d : HalData)
    → d.mutex ≡ false
    → Tidies (body (record d { mutex = true }))
    → Opens (locked body d)
locked-Opens body d m t =
    rw (m, if◌then◌else◌, Opens) (unlock-Opens (body (record d { mutex = true })) t)

pub keep-Frees : (o : Outcome (Result ℕ × HalData)) → Opens o → Frees (keep o)
keep-Frees (done (r, d)) t = t
keep-Frees hang t = t
keep-Frees fault t = t

pub IsTidy-same : (d e : HalData) → SameLists d e → IsTidy d → IsTidy e
IsTidy-same d e s t = (
  subst (IsSorted (λ (f : Funct). f.name)) (sym s.0) t.0,
  subst (IsSorted (λ (p : Pin). p.name)) (sym s.1) t.1,
  subst (IsSorted (λ (p : Param). p.name)) (sym s.2) t.2,
)

-- Changes that keep the names keep the order.
module _ {A : Type 0} (name : A → Name) (g : A → A) (kept : (x : A) → name (g x) ≡ name x) where
  Above-map : (n : Name) (xs : List A) → Above name n xs → Above name n (map g xs)
  Above-map n [] a = tt
  Above-map n (x ∷ xs) a = (ap (strcmp n) (kept x) ∙ a.0, Above-map n xs a.1)

  pub IsSorted-map : (xs : List A) → IsSorted name xs → IsSorted name (map g xs)
  IsSorted-map [] s = tt
  IsSorted-map (x ∷ xs) s = (rw (kept x) (Above-map (name x) xs s.0), IsSorted-map xs s.1)
