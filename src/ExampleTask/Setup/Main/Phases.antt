-- ===== src/ExampleTask/Setup/Main/Phases.antt =====
-- The calls that have succeeded, one after another, where `task_thread_main` returns 0.
use real_time_system.Common.{ℕ, ◌≡◌, true, some, Result, ok, done}
use real_time_system.Common.Int.{pos}
use real_time_system.Hal.App.{init_component}
use real_time_system.Hal.Comps.{hal_ready}
use real_time_system.Hal.Threads.Create.{on_data}
use real_time_system.ExampleTask.Setup.{
  Application, Site, on_process, on_hal, allocate, new_pins, pins_of, store_all, initial_values,
}
use real_time_system.ExampleTask.Setup.Texts.{component_name, handler_name, controller_name}
use real_time_system.ExampleTask.Setup.Main.{
  init_task_comm_buffers, has_axes, id_of, max_velocity_param, max_accel_param, create_thread,
  thread_asked, exported, mounted, default_subtask, settask_cycle_time, setsubtask_cycle_time,
}

-- The parameters of the two values, once the pins are registered and hold their first values.
abbrev pub HasParams : Site → (off : ℕ) → Application → Application → Type 0
HasParams site off a b =
    (a1 : Application) × (v w : ℕ) × (on_hal (max_velocity_param site off (id_of a)) a
      ≡ done (ok v, a1))
    × (on_hal (max_accel_param site off (id_of a)) a1 ≡ done (ok w, b))

-- `init_hal_param`
abbrev pub HasPins : Site → Application → Application → Type 0
HasPins site a b =
    (off : ℕ) × (a1 : Application) × (on_hal (allocate site.block.size) a ≡ done (some off, a1))
    × (let a2 = record a1 {
      task_hal_data = some off;
      max_velocity = pos 1000;
      max_accel = pos 500;
    } in
        (n : ℕ) × (a3 a4 : Application) × (on_hal
            (new_pins site.boot.sizes off (id_of a2) (pins_of site.block)) a2
          ≡ done (pos n, a3))
        × (on_hal
              (store_all site.boot.sizes a3.process.hal_shmem_base off (initial_values site.block))
              a3
            ≡ done (tt, a4))
        × HasParams site off a4 b)

-- `init_task_threads`. What the two mounts return is not tested.
abbrev pub HasThread : Site → Application → Application → Type 0
HasThread site a b =
    (a1 a2 a3 a4 a5 : Application) × (t f g : ℕ) × (r s : Result ℕ) × (create_thread site
        (thread_asked (default_subtask a)) (default_subtask a)
      ≡ done (ok t, a1))
    × (exported site handler_name site.handler a1 ≡ done (ok f, a2))
    × (exported site controller_name site.controller a2 ≡ done (ok g, a3))
    × (mounted site handler_name (pos 1) a3 ≡ done (r, a4))
    × (mounted site controller_name (pos 2) a4 ≡ done (s, a5))
    × (b ≡ setsubtask_cycle_time site (settask_cycle_time site a5))

-- All phases. What `hal_ready` returns is not tested.
abbrev pub HasPhases : Site → Application → Application → Type 0
HasPhases site a b =
    (id : ℕ) × (a1 a2 a3 a4 : Application) × (r : Result ℕ) × (on_process
        (init_component site.boot site.uuid_os (some component_name)) a
      ≡ done (ok id, a1))
    × (has_axes a1 ≡ true)
    × HasPins site (record a1 { mot_comp_id = pos id }) a2
    × (init_task_comm_buffers site a2 ≡ done (pos 0, a3))
    × HasThread site a3 a4
    × (on_hal (on_data (hal_ready (id_of a4))) a4 ≡ done (r, b))
