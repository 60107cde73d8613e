-- ===== src/ExampleTask/Setup/Main/Returned.antt =====
-- What has come before, where `task_thread_main` and its phases return 0.
use real_time_system.Common.{
  ℕ, zero, suc, ◌≡◌, refl, true, false, Option, none, some, Bool, Result, ok, err, Outcome, done,
  ap, sym, ◌∙◌,
}
use real_time_system.Common.Int.{ℤ, pos, negsuc}
use real_time_system.Common.Runs.{Run, pure, ◌>>=◌, ◌>>◌, or_return, with_state, after-done}
use real_time_system.Hal.App.{init_component}
use real_time_system.Hal.Comps.{hal_ready}
use real_time_system.Hal.Threads.Create.{on_data}
use real_time_system.ExampleTask.Setup.{
  Application, Site, on_process, on_hal, failure, allocate, new_pins, pins_of, store_all,
  initial_values,
}
use real_time_system.ExampleTask.Setup.Texts.{component_name, handler_name, controller_name}
use real_time_system.ExampleTask.Setup.Main.{
  init_hal_param, with_block, after_pins, init_task_comm_buffers, init_task_threads, exit_hal,
  phase_failed, or_exit, ready, configured, has_axes, component_named, with_param, with_comm,
  task_thread_main, id_of, max_velocity_param, max_accel_param, new_params, first_param, new_accel,
  second_param, create_thread, thread_asked, thread_made, exported, mounted, exports,
  handler_exported, exports_controller, controller_exported, functs_exported, cycle_times,
  default_subtask, settask_cycle_time, setsubtask_cycle_time,
}
use real_time_system.ExampleTask.Setup.Main.Phases.{HasParams, HasPins, HasThread, HasPhases}

or_return-done :
    {A : Type 0} (r : Result A) (k : A → Run Application ℤ) (a b : Application) (n : ℕ)
    → or_return r failure k a ≡ done (pos n, b)
    → (v : A) × (r ≡ ok v) × (k v a ≡ done (pos n, b))
or_return-done (ok v) k a b n e = (v, refl, e)
or_return-done (err x) k a b n e = absurd (cc e)

phase_failed-nonzero : (site : Site) (a b : Application) → phase_failed site a ≡ done (pos 0, b) → ⊥
phase_failed-nonzero site a b e =
    let w = after-done (λ _. pure failure) (exit_hal site a) (pos 0) b e in cc w.3

or_exit-done :
    (site : Site) (r : ℤ) (k : Run Application ℤ) (a b : Application)
    → or_exit site r k a ≡ done (pos 0, b)
    → (r ≡ pos 0) × (k a ≡ done (pos 0, b))
or_exit-done site (pos zero) k a b e = (refl, e)
or_exit-done site (pos (suc n)) k a b e = absurd (phase_failed-nonzero site a b e)
or_exit-done site (negsuc n) k a b e = absurd (phase_failed-nonzero site a b e)

-- A result that is known, and the state after the last call.
there :
    {A : Type 0} (o : Outcome (A × Application)) (r s : A) (a b : Application)
    → o ≡ done (r, a)
    → r ≡ s
    → a ≡ b
    → o ≡ done (s, b)
there o r s a b e q p = e ∙ ap (λ r. done (r, a)) q ∙ ap (λ a. done (s, a)) p

state_of :
    (r s : ℤ) (a b : Application)
    → (let o : Outcome (ℤ × Application) = done (r, a) in o ≡ done (s, b))
    → a ≡ b
state_of r s a b e = cc e

params-done :
    (site : Site) (off : ℕ) (a b : Application)
    → new_params site off (id_of a) a ≡ done (pos 0, b)
    → HasParams site off a b
params-done site off a b e =
    let first = on_hal (max_velocity_param site off (id_of a)) a in
    let x = after-done (first_param site off (id_of a)) first (pos 0) b e in
    let v = or_return-done x.0 (λ _. new_accel site off (id_of a)) x.1 b 0 x.3 in
    let second = on_hal (max_accel_param site off (id_of a)) x.1 in
    let y = after-done second_param second (pos 0) b v.2 in
    let w = or_return-done y.0 (λ _. pure (pos 0)) y.1 b 0 y.3 in
    (
      x.1,
      v.0,
      w.0,
      there first x.0 (ok v.0) x.1 x.1 x.2 v.1 refl,
      there second y.0 (ok w.0) y.1 b y.2 w.1 (state_of (pos 0) (pos 0) y.1 b w.2),
    )

AfterPins : Site → ℕ → ℤ → Application → Application → Type 0
AfterPins site off r a b =
    (n : ℕ) × (a4 : Application) × (r ≡ pos n)
    × (on_hal (store_all site.boot.sizes a.process.hal_shmem_base off (initial_values site.block)) a
        ≡ done (tt, a4))
    × HasParams site off a4 b

pins-done :
    (site : Site) (off : ℕ) (r : ℤ) (a b : Application)
    → after_pins site off r a ≡ done (pos 0, b)
    → AfterPins site off r a b
unfolding AfterPins
pins-done site off (negsuc n) a b e = absurd (cc e)
pins-done site off (pos n) a b e =
    let stores =
      on_hal (store_all site.boot.sizes a.process.hal_shmem_base off (initial_values site.block))
        a in
    let x = after-done (λ _. with_state (λ a. new_params site off (id_of a))) stores (pos 0) b e in
    (n, x.1, refl, x.2, params-done site off x.1 b x.3)

block-done :
    (site : Site) (o : Option ℕ) (a a1 b : Application)
    → on_hal (allocate site.block.size) a ≡ done (o, a1)
    → with_block site o a1 ≡ done (pos 0, b)
    → HasPins site a b
unfolding AfterPins
block-done site none a a1 b q e = absurd (cc e)
block-done site (some off) a a1 b q e =
    let a2 = record a1 { task_hal_data = some off; max_velocity = pos 1000; max_accel = pos 500 } in
    let pins = on_hal (new_pins site.boot.sizes off (id_of a2) (pins_of site.block)) a2 in
    let x = after-done (after_pins site off) pins (pos 0) b e in
    let y = pins-done site off x.0 x.1 b x.3 in
    (off, a1, q, (y.0, x.1, y.1, there pins x.0 (pos y.0) x.1 x.1 x.2 y.2 refl, y.3, y.4))

param-done :
    (site : Site) (a b : Application) → init_hal_param site a ≡ done (pos 0, b) → HasPins site a b
unfolding init_hal_param
param-done site a b e =
    let x = after-done (with_block site) (on_hal (allocate site.block.size) a) (pos 0) b e in
    block-done site x.0 a x.1 b x.2 x.3

functs-done :
    (site : Site) (a3 b : Application)
    → functs_exported site a3 ≡ done (pos 0, b)
    → (a4 a5 : Application) × (r s : Result ℕ) × (mounted site handler_name (pos 1) a3
        ≡ done (r, a4))
      × (mounted site controller_name (pos 2) a4 ≡ done (s, a5))
      × (b ≡ setsubtask_cycle_time site (settask_cycle_time site a5))
functs-done site a3 b e =
    let x =
      after-done (λ _. mounted site controller_name (pos 2) >> cycle_times site)
        (mounted site handler_name (pos 1) a3) (pos 0) b e in
    let y =
      after-done (λ _. cycle_times site) (mounted site controller_name (pos 2) x.1) (pos 0) b x.3 in
    (x.1, y.1, x.0, y.0, x.2, y.2, sym (state_of (pos 0) (pos 0) _ b y.3))

threads-done :
    (site : Site) (a b : Application)
    → init_task_threads site a ≡ done (pos 0, b)
    → HasThread site a b
unfolding init_task_threads
threads-done site a b e =
    let made = create_thread site (thread_asked (default_subtask a)) (default_subtask a) in
    let x = after-done (thread_made site) made (pos 0) b e in
    let t = or_return-done x.0 (λ _. exports site) x.1 b 0 x.3 in
    let handler = exported site handler_name site.handler x.1 in
    let y = after-done (handler_exported site) handler (pos 0) b t.2 in
    let f = or_return-done y.0 (λ _. exports_controller site) y.1 b 0 y.3 in
    let controller = exported site controller_name site.controller y.1 in
    let z = after-done (controller_exported site) controller (pos 0) b f.2 in
    let g = or_return-done z.0 (λ _. functs_exported site) z.1 b 0 z.3 in
    let m = functs-done site z.1 b g.2 in
    (
      x.1,
      y.1,
      z.1,
      m.0,
      m.1,
      t.0,
      f.0,
      g.0,
      m.2,
      m.3,
      there made x.0 (ok t.0) x.1 x.1 x.2 t.1 refl,
      there handler y.0 (ok f.0) y.1 y.1 y.2 f.1 refl,
      there controller z.0 (ok g.0) z.1 z.1 z.2 g.1 refl,
      m.4,
      m.5,
      m.6,
    )

configured-done :
    (site : Site) (a a1 b : Application) (id : ℕ) (c : Bool)
    → on_process (init_component site.boot site.uuid_os (some component_name)) a ≡ done (ok id, a1)
    → has_axes a1 ≡ c
    → configured site c (record a1 { mot_comp_id = pos id }) ≡ done (pos 0, b)
    → HasPhases site a b
configured-done site a a1 b id false q h e =
    absurd (phase_failed-nonzero site (record a1 { mot_comp_id = pos id }) b e)
configured-done site a a1 b id true q h e =
    let c = record a1 { mot_comp_id = pos id } in
    let p = after-done (with_param site) (init_hal_param site c) (pos 0) b e in
    let p' = or_exit-done site p.0 (init_task_comm_buffers site >>= with_comm site) p.1 b p.3 in
    let m = after-done (with_comm site) (init_task_comm_buffers site p.1) (pos 0) b p'.1 in
    let m' =
      or_exit-done site m.0 (init_task_threads site >>= (λ r. or_exit site r ready)) m.1 b m.3 in
    let t = after-done (λ r. or_exit site r ready) (init_task_threads site m.1) (pos 0) b m'.1 in
    let t' = or_exit-done site t.0 ready t.1 b t.3 in
    let made = on_hal (on_data (hal_ready (id_of t.1))) t.1 in
    let y = after-done (λ _. pure (pos 0)) made (pos 0) b t'.1 in
    (
      id,
      a1,
      p.1,
      m.1,
      t.1,
      y.0,
      q,
      h,
      param-done site c p.1 (there (init_hal_param site c) p.0 (pos 0) p.1 p.1 p.2 p'.0 refl),
      there (init_task_comm_buffers site p.1) m.0 (pos 0) m.1 m.1 m.2 m'.0 refl,
      threads-done site m.1 t.1
          (there (init_task_threads site m.1) t.0 (pos 0) t.1 t.1 t.2 t'.0 refl),
      there made y.0 y.0 y.1 b y.2 refl (state_of (pos 0) (pos 0) y.1 b y.3),
    )

named-done :
    (site : Site) (a a1 b : Application) (r : Result ℕ)
    → on_process (init_component site.boot site.uuid_os (some component_name)) a ≡ done (r, a1)
    → component_named site r a1 ≡ done (pos 0, b)
    → HasPhases site a b
named-done site a a1 b (err x) q e = absurd (cc e)
named-done site a a1 b (ok id) q e = configured-done site a a1 b id (has_axes a1) q refl e

-- `task_thread_main` returns 0 only after all phases.
pub main-done :
    (site : Site) (a b : Application)
    → task_thread_main site a ≡ done (pos 0, b)
    → HasPhases site a b
unfolding task_thread_main
main-done site a b e =
    let made = on_process (init_component site.boot site.uuid_os (some component_name)) a in
    let x = after-done (component_named site) made (pos 0) b e in
    named-done site a x.1 b x.0 x.2 x.3
