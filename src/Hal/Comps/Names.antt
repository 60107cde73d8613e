-- ===== src/Hal/Comps/Names.antt =====
-- `hal_init` and `hal_exit`: the list of components, and the names in it.
use mathlib.Core.Path.{subst}
use real_time_system.Common.{
  ℕ, ◌+◌, ◌≤◌, ◌≡◌, ◌≢◌, refl, sym, ◌∙◌, Bool, true, false, Option, none, some, List, [], ◌∷◌, ltb,
  if◌then◌else◌, length, arith, einval, Result, ok, err, Outcome, done, hang, fault,
}
use real_time_system.Common.Names.{Name, snprintf}
use real_time_system.Hal.Data.{HalData, Comp, Sizes, hal_name_len}
use real_time_system.Hal.Sorted.{find_by_name}
use real_time_system.Hal.Structs.{halpr_alloc_comp_struct, free_comp_struct}
use real_time_system.Hal.Structs.Keeps.{free_comp-comps, alloc_comp-keeps, alloc_comp_unnamed}
use real_time_system.Hal.Calls.{unlock, locked}
use real_time_system.Hal.Comps.{
  hal_init, hal_exit, take_comp, registered, new_comp, unless_named, is_destroyed, register,
}

-- The names of all components are empty.
abbrev pub Unnamed : List Comp → Type 0
Unnamed [] = Unit
Unnamed (c ∷ cs) = (c.name ≡ []) × Unnamed cs

find-Unnamed :
    (n : Name) (cs : List Comp)
    → n ≢ []
    → Unnamed cs
    → find_by_name (λ (c : Comp). c.name) n cs ≡ none
unfolding find_by_name
find-Unnamed [] cs h u = absurd (h refl)
find-Unnamed (x ∷ n) [] h u = refl
find-Unnamed (x ∷ n) (c ∷ cs) h u = rw (u.0, find_by_name) (find-Unnamed (x ∷ n) cs h u.1)

-- A successful registration puts a component with the id, not ready and unnamed as the memory was, in front of the list.
abbrev Adds : ℕ → HalData → Outcome (Result ℕ × HalData) → Type 0
Adds id d (done (ok i, d')) =
    (i ≡ id)
    × (d'.state ≡ d.state)
    × (c : Comp) × (d'.comp_list ≡ c ∷ d.comp_list)
    × (c.comp_id ≡ id)
    × (c.name ≡ [])
Adds id d _ = Unit

registered-Adds :
    (base id : ℕ) (d : HalData) (o : Option Comp) (d1 : HalData)
    → (d1.comp_list ≡ d.comp_list) × (d1.state ≡ d.state)
    → ((c : Comp) → o ≡ some c → c.name ≡ [])
    → Adds id d (registered base id (o, d1))
registered-Adds base id d none d1 k h = tt
registered-Adds base id d (some c) d1 k h = (refl, k.1, new_comp base id c, rw k.0, refl, h c refl)

unless_named-Adds :
    (sizes : Sizes) (base id : ℕ) (d : HalData) (o : Option Comp)
    → Adds id d (unless_named sizes base id d o)
unless_named-Adds sizes base id d none =
    registered-Adds base id d (halpr_alloc_comp_struct sizes d).0
      (halpr_alloc_comp_struct sizes d).1 (alloc_comp-keeps sizes d.comp_free d refl)
      (alloc_comp_unnamed sizes d.comp_free d refl)
unless_named-Adds sizes base id d (some c) = tt

done_inj :
    {i j : ℕ} {x y : HalData}
    → ◌≡◌ {A = Outcome (Result ℕ × HalData)} (done (ok j, x)) (done (ok i, y))
    → (j ≡ i) × (x ≡ y)
done_inj e = (cc, cc)

abbrev IsAdded : ℕ → HalData → HalData → Type 0
IsAdded id d d' =
    (d'.mutex ≡ false)
    × (d'.state ≡ d.state)
    × (c : Comp) × (d'.comp_list ≡ c ∷ d.comp_list)
    × (c.comp_id ≡ id)
    × (c.name ≡ [])

unlock-IsAdded :
    (id : ℕ) (d : HalData) (o : Outcome (Result ℕ × HalData)) (i : ℕ) (d' : HalData)
    → Adds id d o
    → unlock o ≡ done (ok i, d')
    → IsAdded i d d'
unlock-IsAdded id d (done (ok j, d1)) i d' a e =
    let (p, q) = done_inj {x = record d1 { mutex = false }} {y = d'} e in
    subst (IsAdded i d) q (refl, a.1, a.2, a.3, a.4 ∙ sym a.0 ∙ p, a.5)
unlock-IsAdded id d (done (err x, d1)) i d' a e = cc
unlock-IsAdded id d hang i d' a e = cc
unlock-IsAdded id d fault i d' a e = cc

if_locked :
    (c : Bool) (d d' : HalData) (i : ℕ) (body : HalData → Outcome (Result ℕ × HalData))
    → (if c then done (err einval, d) else locked body d) ≡ done (ok i, d')
    → unlock (body (record d { mutex = true })) ≡ done (ok i, d')
if_locked c d d' i body e = ground arith

init-IsAdded :
    (sizes : Sizes) (base : ℕ) (name : Option Name) (r : Result ℕ) (d d' : HalData) (id : ℕ)
    → hal_init sizes base name r d ≡ done (ok id, d')
    → IsAdded id d d'
unfolding hal_init
init-IsAdded sizes base none r d d' id e = cc
init-IsAdded sizes base (some n) (err x) d d' id e = cc
init-IsAdded sizes base (some n) (ok x) d d' id e =
    let d1 = record d { mutex = true } in
    unlock-IsAdded x d1 (register sizes base n x d1) id d' (unless_named-Adds sizes base x d1 _)
      (if_locked (ltb hal_name_len (length n)) d d' id (register sizes base n x) e)

take_head :
    (id : ℕ) (c : Comp) (cs : List Comp) → c.comp_id ≡ id → take_comp id (c ∷ cs) ≡ some (c, cs)
unfolding take_comp
take_head id c cs q = ground arith

exit_added :
    (id : ℕ) (d d' : HalData)
    → IsAdded id d d'
    → is_destroyed d.state ≡ false
    → (d'' : HalData) × (hal_exit id (some d') ≡ done (ok 0, some d''))
      × (d''.comp_list ≡ d.comp_list)
unfolding hal_exit
exit_added id d d' (m, s, c, l, q, _) u = (
  record (free_comp_struct c (record d' { mutex = true; comp_list = d.comp_list })) {
    mutex = false;
  },
  rw (s, u, m, l, take_head id c d.comp_list q) refl,
  free_comp-comps c (record d' { mutex = true; comp_list = d.comp_list }),
)

-- If `hal_init` has returned an id and the HAL is not DESTROYED, `hal_exit` of the id returns 0 and the
-- list of components is the one before `hal_init` again.
pub exit-init :
    (sizes : Sizes) (base : ℕ) (name : Option Name) (r : Result ℕ) (d d' : HalData) (id : ℕ)
    → hal_init sizes base name r d ≡ done (ok id, d')
    → is_destroyed d.state ≡ false
    → (d'' : HalData) × (hal_exit id (some d') ≡ done (ok 0, some d''))
      × (d''.comp_list ≡ d.comp_list)
exit-init sizes base name r d d' id e u =
    exit_added id d d' (init-IsAdded sizes base name r d d' id e) u

init-Unnamed :
    (sizes : Sizes) (base : ℕ) (name : Option Name) (r : Result ℕ) (d d' : HalData) (id : ℕ)
    → hal_init sizes base name r d ≡ done (ok id, d')
    → Unnamed d.comp_list
    → Unnamed d'.comp_list
init-Unnamed sizes base name r d d' id e u =
    let (m, s, c, l, q, w) = init-IsAdded sizes base name r d d' id e in rw l (w, u)

unlock-registered :
    (base id : ℕ) (a : Option Comp × HalData) (d' : HalData)
    → unlock (registered base id a) ≢ done (err einval, d')
unlock-registered base id (none, d) d' e = cc
unlock-registered base id (some c, d) d' e = cc

register-Unnamed :
    (sizes : Sizes) (base id x : ℕ) (n : Name) (d d' : HalData)
    → Unnamed d.comp_list
    → unlock (register sizes base (x ∷ n) id d) ≢ done (err einval, d')
register-Unnamed sizes base id x n d d' u =
    rw
      (
        find-Unnamed (snprintf (hal_name_len + 1) (x ∷ n)) d.comp_list (λ e. cc) u,
        unless_named,
        unlock,
      )
      (unlock-registered base id (halpr_alloc_comp_struct sizes d) d')

past_guard :
    (c : Bool) (d : HalData) (body : HalData → Outcome (Result ℕ × HalData))
    (o : Outcome (Result ℕ × HalData))
    → c ≡ false
    → d.mutex ≡ false
    → (if c then done (err einval, d) else locked body d) ≡ o
    → unlock (body (record d { mutex = true })) ≡ o
past_guard c d body o e m f = ground (arith, e, m, f)

-- The names of components are never compared: where all names in the list are empty, as `hal_init`
-- leaves them, a second `hal_init` with a non-empty name of at most 47 bytes that was just registered
-- never returns -EINVAL once rtapi_init has given it an id.
pub second-init :
    (sizes : Sizes) (base : ℕ) (n : Name) (r : Result ℕ) (d d1 d2 : HalData) (id id' : ℕ)
    → n ≢ []
    → length n ≤ hal_name_len
    → Unnamed d.comp_list
    → hal_init sizes base (some n) r d ≡ done (ok id, d1)
    → hal_init sizes base (some n) (ok id') d1 ≢ done (err einval, d2)
unfolding hal_init
second-init sizes base [] r d d1 d2 id id' h b u e f = h refl
second-init sizes base (x ∷ n) r d d1 d2 id id' h b u e f =
    let free = (init-IsAdded sizes base (some (x ∷ n)) r d d1 id e).0 in
    register-Unnamed sizes base id' x n (record d1 { mutex = true }) d2
      (init-Unnamed sizes base (some (x ∷ n)) r d d1 id e u)
      (past_guard (ltb hal_name_len (length (x ∷ n))) d1 (register sizes base (x ∷ n) id')
        (done (err einval, d2)) (ground (arith, b)) free f)
