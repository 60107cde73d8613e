-- ===== src/ExampleTask/Setup.antt =====
-- ExampleTask/task.c: the set-up and the shutdown of the example task (`task_thread_main`,
-- `task_thread_exit` and the functions that they call), over the HAL of the process. Messages are left out.
mod Texts
mod Tests
pub mod Main
use real_time_system.Common.{
  ℕ, ◌+◌, ◌*◌, Bool, true, false, ◌||◌, Option, none, some, List, [], ◌∷◌, map, ◌==◌, if◌then◌else◌,
  get_elem?, Result, ok, err, Outcome, done, fault,
}
use real_time_system.Common.Int.{ℤ, pos, negsuc, pos_part, ltb_ℤ}
use real_time_system.Common.Names.{Name, snprintf}
use real_time_system.Common.Codes.{as_int}
use real_time_system.Common.Runs.{Run, pure, after, ◌>>=◌, ◌>>◌, or_return, zoom, change}
use real_time_system.Rtapi.Task.{Slot}
use real_time_system.Rtapi.Shmem.{
  Handle, ShmOs, rtapi_shmem_new, rtapi_shmem_getptr, rtapi_shmem_delete,
}
use real_time_system.Rtapi.Shmem.Uuid.{Modules, is_first, rtapi_exit}
use real_time_system.Hal.Data.{HalData, HalType, Sizes, Pin, bit, float, s32, rw, hal_name_len}
use real_time_system.Hal.Lifecycle.{hal_stop_threads}
use real_time_system.Hal.Comps.{hal_exit, hal_ready, hal_malloc}
use real_time_system.Hal.Params.{hal_param_new}
use real_time_system.Hal.Pins.{hal_pin_newf, pointer_at}
use real_time_system.Hal.Functs.{hal_export_funct}
use real_time_system.Hal.Mounting.{hal_add_funct_to_thread}
use real_time_system.Hal.App.{Process, Boot, with_handles, exited, init_component}
use real_time_system.Hal.Threads.Create.{
  Machine, Env, Asked, link_thread, pseudo_name, with_component, on_data,
}
use real_time_system.ExampleTask.Channel.{Channel, cmd_none}
use real_time_system.ExampleTask.Setup.Texts.{
  component_name, enable_in_name, target_pos_name, feed_rate_name, current_pos_name, running_name,
  error_name, heartbeat_out_name, max_velocity_name, max_accel_name, thread_name, handler_name,
  controller_name,
}

abbrev pub task_shm_key : ℕ
task_shm_key = 0x54534B31

abbrev pub max_axes : ℕ
max_axes = 4

-- The process, the period of its real-time application, and the variables of the example task:
-- `taskShared` (`none` for NULL), `taskHalData` as an offset, with the two parameters in it.
pub record Application : Type 0 where
  pub process : Process
  pub period : ℤ
  pub mot_comp_id : ℤ
  pub emc_shmem_id : ℤ
  pub task_shared : Option Channel
  pub task_hal_data : Option ℕ
  pub max_velocity : ℤ
  pub max_accel : ℤ
  pub task_period_nsec : ℕ
  pub subtask_period_nsec : ℕ
  pub num_axis : ℤ

-- The size of `task_hal_data_t` and the offsets of its fields.
pub record Block : Type 0 where
  pub size : ℕ
  pub enable_in_at : ℕ
  pub target_pos_at : ℕ
  pub feed_rate_at : ℕ
  pub current_pos_at : ℕ
  pub running_at : ℕ
  pub error_at : ℕ
  pub heartbeat_out_at : ℕ
  pub max_velocity_at : ℕ
  pub max_accel_at : ℕ

-- What the calls find outside: what the system answers when ids for the component and for the pseudo
-- component of the thread are made, and for the segment; the content of the segment when it is mapped
-- anew; the addresses of the two real-time functions; and what is left of a number of nanoseconds that
-- was turned into seconds and back in floating point.
pub record Site : Type 0 where
  pub boot : Boot
  pub env : Env
  pub uuid_os : ShmOs
  pub pseudo_os : ShmOs
  pub shared_os : ShmOs
  pub shared_size : ℕ
  pub shared_found : Channel
  pub block : Block
  pub handler : ℕ
  pub controller : ℕ
  pub through_seconds : ℕ → ℕ

-- The parts of the state that the calls of the HAL work on.
abbrev pub on_process : {A : Type 0} → Run Process A → Run Application A
on_process = zoom (λ (a : Application). a.process) (λ a p. record a { process = p })

abbrev pub put_hal_data : Application → Option HalData → Application
put_hal_data a h = record a { process = record a.process { hal = h } }

abbrev pub on_hal : {A : Type 0} → Run (Option HalData) A → Run Application A
on_hal = zoom (λ (a : Application). a.process.hal) put_hal_data

abbrev pub machine_of : Application → Machine
machine_of a = record { hal = a.process.hal; slots = a.process.slots; period = a.period }

abbrev pub put_machine : Application → Machine → Application
put_machine a m = record a {
  process = record a.process { hal = m.hal; slots = m.slots };
  period = m.period;
}

abbrev pub on_machine : {A : Type 0} → Run Machine A → Run Application A
on_machine = zoom machine_of put_machine

-- -1
abbrev pub failure : ℤ
failure = negsuc 0

-- `hal_malloc` tests for NULL.
abbrev malloced : Outcome (Option ℕ × HalData) → Outcome (Option ℕ × Option HalData)
malloced (done (o, d)) = done (o, some d)
malloced Outcome.hang = Outcome.hang
malloced fault = fault

abbrev allocate : ℕ → Run (Option HalData) (Option ℕ)
allocate size none = done (none, none)
allocate size (some d) = malloced (hal_malloc size d)

-- PIN_NEW for each of the pins, and the next ones only if it succeeds.
pub new_pins : Sizes → (off id : ℕ) → List (HalType × (ℕ × Name)) → Run (Option HalData) ℤ
new_pins sizes off id [] = pure (pos 0)
new_pins sizes off id (p ∷ ps) = do
  r ← hal_pin_newf sizes p.1.1 p.0 (some (pos (off + p.1.0))) id
  or_return r failure (λ _. new_pins sizes off id ps)

abbrev pins_of : Block → List (HalType × (ℕ × Name))
pins_of b =
    (bit, (b.enable_in_at, enable_in_name))
    ∷ (s32, (b.target_pos_at, target_pos_name))
    ∷ (float, (b.feed_rate_at, feed_rate_name))
    ∷ (s32, (b.current_pos_at, current_pos_name))
    ∷ (bit, (b.running_at, running_name))
    ∷ (bit, (b.error_at, error_name))
    ∷ (s32, (b.heartbeat_out_at, heartbeat_out_name))
    ∷ []

-- The bits of 1.0
abbrev one_float : ℤ
one_float = pos 0x3FF0000000000000

abbrev initial_values : Block → List (ℕ × ℤ)
initial_values b =
    (b.enable_in_at, pos 0)
    ∷ (b.target_pos_at, pos 0)
    ∷ (b.feed_rate_at, one_float)
    ∷ (b.current_pos_at, pos 0)
    ∷ (b.running_at, pos 0)
    ∷ (b.error_at, pos 0)
    ∷ (b.heartbeat_out_at, pos 0)
    ∷ []

-- An assignment through a pointer, which leads to the dummy signal of a pin.
abbrev with_dummy : Sizes → (base ptr : ℕ) → ℤ → Pin → Pin
with_dummy sizes base ptr v p =
    if base + (p.off + sizes.dummysig_at) == ptr then record p { dummysig = v } else p

abbrev stored : Sizes → ℕ → ℤ → HalData → Option ℕ → Outcome (Unit {0} × Option HalData)
stored sizes base v d none = fault
stored sizes base v d (some ptr) =
    done (tt, some (record d { pin_list = map (with_dummy sizes base ptr v) d.pin_list }))

abbrev store : Sizes → (base at : ℕ) → ℤ → Run (Option HalData) (Unit {0})
store sizes base at v none = fault
store sizes base at v (some d) = stored sizes base v d (pointer_at at d.pin_pointers)

pub store_all : Sizes → (base off : ℕ) → List (ℕ × ℤ) → Run (Option HalData) (Unit {0})
store_all sizes base off [] = pure tt
store_all sizes base off (w ∷ ws) = do store sizes base (off + w.0) w.1; store_all sizes base off ws
