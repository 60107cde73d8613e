-- ===== src/ExampleTask/Setup/Main.antt =====
-- ExampleTask/task.c: `init_hal_param`, `init_task_comm_buffers`, `init_task_threads`,
-- `task_thread_main` and `task_thread_exit`.
pub mod Keeping
pub mod Phases
pub mod Returned
pub mod Success
use real_time_system.Common.{
  ℕ, zero, suc, ◌+◌, ◌*◌, Bool, true, false, not, ◌||◌, Option, none, some, List, [], ◌∷◌, ◌==◌,
  if◌then◌else◌, get_elem?, Result, ok, err, Outcome, done, fault,
}
use real_time_system.Common.Int.{ℤ, pos, negsuc, pos_part, ltb_ℤ}
use real_time_system.Common.Names.{Name, snprintf}
use real_time_system.Common.Codes.{as_int}
use real_time_system.Common.Runs.{
  Run, pure, after, ◌>>=◌, ◌>>◌, or_return, zoom, change, with_state,
}
use real_time_system.Rtapi.Shmem.{Handle, rtapi_shmem_new, rtapi_shmem_getptr, rtapi_shmem_delete}
use real_time_system.Rtapi.Shmem.Uuid.{is_first}
use real_time_system.Hal.Data.{HalData, s32, rw, hal_name_len}
use real_time_system.Hal.Lifecycle.{hal_stop_threads}
use real_time_system.Hal.Comps.{hal_exit, hal_ready}
use real_time_system.Hal.Params.{hal_param_new}
use real_time_system.Hal.Functs.{Export, hal_export_funct}
use real_time_system.Hal.Mounting.{hal_add_funct_to_thread}
use real_time_system.Hal.App.{Process, Boot, with_handles, exited, init_component}
use real_time_system.Hal.Threads.{exit_component}
use real_time_system.Hal.Threads.Create.{
  Env, Asked, link_thread, pseudo_name, with_component, on_data,
}
use real_time_system.ExampleTask.Channel.{Channel, cmd_none}
use real_time_system.ExampleTask.Setup.{
  Application, Site, Block, on_process, on_hal, on_machine, failure, allocate, new_pins, pins_of,
  initial_values, store_all, task_shm_key, max_axes,
}
use real_time_system.ExampleTask.Setup.Texts.{
  component_name, max_velocity_name, max_accel_name, thread_name, handler_name, controller_name,
}

-- The id of the component, which is not negative once `hal_init` has returned it.
abbrev id_of : Application → ℕ
id_of a = pos_part a.mot_comp_id

-- `init_hal_param`, from the inside out.
abbrev max_velocity_param : Site → (off id : ℕ) → Run (Option HalData) (Result ℕ)
max_velocity_param site off id =
    hal_param_new site.boot.sizes max_velocity_name s32 rw (pos (off + site.block.max_velocity_at))
      id

abbrev max_accel_param : Site → (off id : ℕ) → Run (Option HalData) (Result ℕ)
max_accel_param site off id =
    hal_param_new site.boot.sizes max_accel_name s32 rw (pos (off + site.block.max_accel_at)) id

abbrev second_param : Result ℕ → Run Application ℤ
second_param r = or_return r failure (λ _. pure (pos 0))

abbrev new_accel : Site → (off id : ℕ) → Run Application ℤ
new_accel site off id = on_hal (max_accel_param site off id) >>= second_param

abbrev first_param : Site → (off id : ℕ) → Result ℕ → Run Application ℤ
first_param site off id r = or_return r failure (λ _. new_accel site off id)

abbrev new_params : Site → (off id : ℕ) → Run Application ℤ
new_params site off id = on_hal (max_velocity_param site off id) >>= first_param site off id

abbrev after_pins : Site → (off : ℕ) → ℤ → Run Application ℤ
after_pins site off (negsuc n) = pure failure
after_pins site off (pos n) = do
  with_state (λ a.
      on_hal (store_all site.boot.sizes a.process.hal_shmem_base off (initial_values site.block)))
  with_state (λ a. new_params site off (id_of a))

abbrev with_block : Site → Option ℕ → Run Application ℤ
with_block site none = do change (λ a. record a { task_hal_data = none }); pure failure
with_block site (some off) = do
  change (λ a. record a { task_hal_data = some off; max_velocity = pos 1000; max_accel = pos 500 })
  r ← with_state (λ a. on_hal (new_pins site.boot.sizes off (id_of a) (pins_of site.block)))
  after_pins site off r

unfoldable pub init_hal_param : Site → Run Application ℤ
unfolding new_pins store_all hal_param_new
init_hal_param site = do b ← on_hal (allocate site.block.size); with_block site b

-- `init_task_comm_buffers`: after `rtapi_shmem_getptr`, after `rtapi_shmem_new`. Memory that the process
-- has mapped already keeps its content.
abbrev shared_content : Site → Bool → Option Channel → Channel
shared_content site true o = site.shared_found
shared_content site false none = site.shared_found
shared_content site false (some c) = c

abbrev pub without_command : Channel → Channel
without_command c = record c { command_id = cmd_none; command_data = pos 0 }

abbrev shared_mapped : Site → Bool → Application → Result ℕ → Outcome (ℤ × Application)
shared_mapped site first a (err e) = done (failure, a)
shared_mapped site first a (ok mem) = done (
  pos 0,
  record a { task_shared = some (without_command (shared_content site first a.task_shared)) },
)

abbrev shared_opened : Site → Application → Result ℕ × List Handle → Outcome (ℤ × Application)
shared_opened site a (err e, hs) =
    done (failure, record a { process = with_handles hs a.process; emc_shmem_id = as_int (err e) })
shared_opened site a (ok n, hs) =
    shared_mapped site (is_first (get_elem? hs n))
      (record a { process = with_handles hs a.process; emc_shmem_id = pos n })
      (rtapi_shmem_getptr hs (pos n))

unfoldable pub init_task_comm_buffers : Site → Run Application ℤ
init_task_comm_buffers site a =
    shared_opened site a
      (rtapi_shmem_new site.shared_os task_shm_key site.shared_size a.process.modules.handles)

-- `hal_create_thread` in the process: its call of `hal_init` takes an id from the modules.
abbrev env_of : Site → Application → Env
env_of site a = record site.env {
  sizes = site.boot.sizes;
  base = a.process.hal_shmem_base;
  lib_module_id = pos_part a.process.lib_module_id;
}

abbrev thread_linked : Site → Name → Result ℕ → Run Application (Result ℕ)
thread_linked site name (err e) = pure (err e)
thread_linked site name (ok off) = do
  r ← on_process (init_component site.boot site.pseudo_os (some (pseudo_name name)))
  with_state (λ a. on_hal (with_component (env_of site a) name off r))

unfoldable pub create_thread : Site → Asked → Run Application (Result ℕ)
unfolding link_thread init_component
create_thread site x = do
  r ← with_state (λ a. on_machine (link_thread (env_of site a) x))
  thread_linked site (snprintf (hal_name_len + 1) x.name) r

-- `init_task_threads`
abbrev thread_asked : Application → Asked
thread_asked a = record {
  name = thread_name;
  period_nsec = a.task_period_nsec * 1000;
  uses_fp = 1;
  priority = pos 98;
}

abbrev exported : Site → Name → ℕ → Run Application (Result ℕ)
exported site name funct = with_state (λ a. on_hal (
    hal_export_funct site.boot.sizes name
      (record { funct = funct; arg = 0; uses_fp = 1; reentrant = 0 }) (id_of a)))

abbrev mounted : Site → Name → ℤ → Run Application (Result ℕ)
mounted site name position =
    on_hal (hal_add_funct_to_thread site.boot.sizes (some name) (some thread_name) position)

abbrev default_subtask : Application → Application
default_subtask a =
    if a.subtask_period_nsec == 0
    then record a { subtask_period_nsec = a.task_period_nsec * 1000 }
    else a

-- `settaskCycleTime` and `setsubtaskCycleTime` at a period turned into seconds
unfoldable pub settask_cycle_time : Site → Application → Application
settask_cycle_time site a =
    if a.task_period_nsec == 0
    then a
    else record a { task_period_nsec = site.through_seconds a.task_period_nsec }

unfoldable pub setsubtask_cycle_time : Site → Application → Application
setsubtask_cycle_time site a =
    if a.subtask_period_nsec == 0
    then a
    else record a { subtask_period_nsec = site.through_seconds a.subtask_period_nsec }

abbrev cycle_times : Site → Run Application ℤ
cycle_times site = do
  change (settask_cycle_time site)
  change (setsubtask_cycle_time site)
  pure (pos 0)

abbrev functs_exported : Site → Run Application ℤ
functs_exported site = do
  mounted site handler_name (pos 1)
  mounted site controller_name (pos 2)
  cycle_times site

-- The two exports, each only after the one before has succeeded.
abbrev controller_exported : Site → Result ℕ → Run Application ℤ
controller_exported site r = or_return r failure (λ _. functs_exported site)

abbrev exports_controller : Site → Run Application ℤ
exports_controller site = exported site controller_name site.controller >>= controller_exported site

abbrev handler_exported : Site → Result ℕ → Run Application ℤ
handler_exported site r = or_return r failure (λ _. exports_controller site)

abbrev exports : Site → Run Application ℤ
exports site = exported site handler_name site.handler >>= handler_exported site

abbrev thread_made : Site → Result ℕ → Run Application ℤ
thread_made site r = or_return r failure (λ _. exports site)

unfoldable pub init_task_threads : Site → Run Application ℤ
unfolding create_thread hal_export_funct hal_add_funct_to_thread settask_cycle_time
    setsubtask_cycle_time
init_task_threads site = do
  change default_subtask
  r ← with_state (λ a. create_thread site (thread_asked a))
  thread_made site r

-- `hal_exit(mot_comp_id)`, which gives back the id of a component that it removed.
abbrev gave_back : Site → Result ℕ → Run Application (Result ℕ)
gave_back site (err e) = pure (err e)
gave_back site (ok r) = do
  change (λ a. record a { process = exited site.boot a.mot_comp_id a.process })
  pure (ok r)

abbrev exit_hal : Site → Run Application (Result ℕ)
exit_hal site = do r ← with_state (λ a. on_hal (exit_component a.mot_comp_id)); gave_back site r

-- A failed phase of `task_thread_main`.
abbrev phase_failed : Site → Run Application ℤ
phase_failed site = do exit_hal site; pure failure

abbrev or_exit : Site → ℤ → Run Application ℤ → Run Application ℤ
or_exit site (pos zero) k = k
or_exit site (pos (suc n)) k = phase_failed site
or_exit site (negsuc n) k = phase_failed site

abbrev ready : Run Application ℤ
ready = do with_state (λ a. on_hal (on_data (hal_ready (id_of a)))); pure (pos 0)

abbrev has_axes : Application → Bool
has_axes a = not (ltb_ℤ a.num_axis (pos 1) || ltb_ℤ (pos max_axes) a.num_axis)

abbrev with_comm : Site → ℤ → Run Application ℤ
with_comm site r = or_exit site r (do r ← init_task_threads site; or_exit site r ready)

abbrev with_param : Site → ℤ → Run Application ℤ
with_param site r = or_exit site r (init_task_comm_buffers site >>= with_comm site)

abbrev configured : Site → Bool → Run Application ℤ
configured site false = phase_failed site
configured site true = init_hal_param site >>= with_param site

abbrev component_named : Site → Result ℕ → Run Application ℤ
component_named site (err e) = do
  change (λ a. record a { mot_comp_id = as_int (err e) })
  pure failure
component_named site (ok id) = do
  change (λ a. record a { mot_comp_id = pos id })
  with_state (λ a. configured site (has_axes a))

unfoldable pub task_thread_main : Site → Run Application ℤ
unfolding init_component init_hal_param init_task_comm_buffers init_task_threads hal_ready
task_thread_main site = do
  r ← on_process (init_component site.boot site.uuid_os (some component_name))
  component_named site r

abbrev stop_threads : Run (Option HalData) (Result ℕ)
stop_threads h = done (hal_stop_threads h)

abbrev release_shared : Site → Application → Application
release_shared site a =
    let hs = (rtapi_shmem_delete site.boot.exit_os a.process.modules.handles a.emc_shmem_id).1 in
    record a { process = with_handles hs a.process }

unfoldable pub task_thread_exit : Site → Run Application (Unit {0})
unfolding hal_stop_threads
task_thread_exit site = do on_hal stop_threads; change (release_shared site); exit_hal site; pure tt
