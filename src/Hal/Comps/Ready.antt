-- ===== src/Hal/Comps/Ready.antt =====
-- The ready flag of a component.
use mathlib.Core.Option
use real_time_system.Common.{
  ℕ, ◌≡◌, ◌↔◌, refl, sym, ◌∙◌, false, some, List, [], ◌∷◌, if◌then◌else◌, arith, einval, Result, ok,
  err, Outcome, done,
}
use real_time_system.Hal.Data.{HalData, Comp}
use real_time_system.Hal.Calls.{locked}
use real_time_system.Hal.Comps.{
  find_comp_by_id, on_comp, with_comp, make_ready, make_unready, hal_ready, hal_unready,
}

on_comp-ready :
    (id : ℕ) (cs : List Comp) (c : Comp)
    → find_comp_by_id id cs ≡ some c
    → c.ready ≡ 0
    → (on_comp make_ready id cs).0 ≡ ok 0
unfolding on_comp find_comp_by_id
on_comp-ready id [] c q z = cc
on_comp-ready id (x ∷ cs) c q z = ground (arith, on_comp-ready id cs c)

undo :
    (id : ℕ) (cs : List Comp) (c : Comp)
    → find_comp_by_id id cs ≡ some c
    → c.ready ≡ 0
    → on_comp make_unready id (on_comp make_ready id cs).1 ≡ (ok 0, cs)
unfolding on_comp find_comp_by_id
undo id [] c q z = cc
undo id (x ∷ cs) c q z = ground (arith, undo id cs c)

twice :
    (id : ℕ) (cs : List Comp)
    → on_comp make_ready id (on_comp make_ready id cs).1
      ≡ (err einval, (on_comp make_ready id cs).1)
unfolding on_comp
twice id [] = refl
twice id (x ∷ cs) = ground (arith, twice id cs)

ready_iff :
    (id : ℕ) (cs : List Comp)
    → ((on_comp make_ready id cs).0 ≡ ok 0)
      ↔ (Option.map (λ (c : Comp). c.ready) (find_comp_by_id id cs) ≡ some 0)
unfolding on_comp find_comp_by_id
ready_iff id [] = ground arith
ready_iff id (x ∷ cs) = ground (arith, ready_iff id cs)

-- The data with other components.
abbrev with_comps : HalData → List Comp → HalData
with_comps d cs = record d { comp_list = cs }

at_free :
    (f : Comp → Result ℕ × Comp) (id : ℕ) (d : HalData)
    → d.mutex ≡ false
    → locked (with_comp f id) d
      ≡ done ((on_comp f id d.comp_list).0, with_comps d (on_comp f id d.comp_list).1)
at_free f id d m = rw (m, if◌then◌else◌)

done_fst :
    {a b : Result ℕ} {x y : HalData}
    → ◌≡◌ {A = Outcome (Result ℕ × HalData)} (done (a, x)) (done (b, y))
    → a ≡ b
done_fst e = cc

-- With the mutex free, `hal_ready` returns 0 exactly if a component has the id and the first one that
-- has it is not ready.
pub hal_ready_iff :
    (id : ℕ) (d : HalData)
    → d.mutex ≡ false
    → ((d' : HalData) × (hal_ready id d ≡ done (ok 0, d')))
      ↔ (Option.map (λ (c : Comp). c.ready) (find_comp_by_id id d.comp_list) ≡ some 0)
unfolding hal_ready
hal_ready_iff id d m =
    let cs = d.comp_list in
    (
      (λ h. (ready_iff id cs).0 (done_fst (sym (at_free make_ready id d m) ∙ h.1))),
      λ h. (
        with_comps d (on_comp make_ready id cs).1,
        rw (at_free make_ready id d m, (ready_iff id cs).1 h),
      ),
    )

-- With the mutex free, and a component that is not ready: `hal_ready` returns 0, `hal_ready` once more
-- returns -EINVAL and changes nothing, and `hal_unready` returns 0 and restores the data exactly.
pub unready-ready :
    (id : ℕ) (d : HalData) (c : Comp)
    → d.mutex ≡ false
    → find_comp_by_id id d.comp_list ≡ some c
    → c.ready ≡ 0
    → (d' : HalData) × (hal_ready id d ≡ done (ok 0, d'))
      × (hal_ready id d' ≡ done (err einval, d'))
      × (hal_unready id d' ≡ done (ok 0, d))
unfolding hal_ready hal_unready
unready-ready id d c m q z =
    let cs = (on_comp make_ready id d.comp_list).1 in
    let d' = with_comps d cs in
    (
      d',
      rw (at_free make_ready id d m, on_comp-ready id d.comp_list c q z),
      rw (at_free make_ready id d' m, twice id d.comp_list),
      rw (at_free make_unready id d' m, undo id d.comp_list c q z),
    )
