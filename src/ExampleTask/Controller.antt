-- ===== src/ExampleTask/Controller.antt =====
-- ExampleTask/funct_control.c and task.h: `taskController`, which runs once in a period. Floating point
-- is not modelled: `scaled` is the value of `(int)((float)max_v * rate * 0.001f)` after the rate was
-- clamped.
pub mod Target
pub mod Latch
mod Tests
use real_time_system.Common.{
  ℕ, ◌+◌, ◌-◌, Bool, true, false, not, Option, none, some, List, [], ◌∷◌, ltb, if◌then◌else◌,
}
use real_time_system.Common.Int.{ℤ, pos, ◌+ℤ◌, ◌-ℤ◌, ltb_ℤ, eqb_ℤ, pos_part}

-- `task_shared_t` without the command channel.
pub record Shared : Type 0 where
  pub heartbeat : ℕ
  pub cycle_count : ℕ
  pub last_wakeup_ns : ℤ

-- The values behind the pins of `task_hal_data_t` that the controller reads or writes, and its two
-- static variables.
pub record Controller : Type 0 where
  pub enable_in : Bool
  pub target_pos : ℤ
  pub current_pos : ℤ
  pub running : Bool
  pub error : Bool
  pub heartbeat_out : ℕ
  pub last_target : ℤ
  pub error_count : ℕ

abbrev pub step_of : ℤ → ℕ
step_of scaled = if ltb_ℤ scaled (pos 1) then 1 else pos_part scaled

-- One step towards the target, not past it.
unfoldable pub toward : ℤ → ℕ → ℤ → ℤ
unfolding ◌+ℤ◌ ◌-ℤ◌
toward target step p =
    if ltb_ℤ p target
    then if ltb_ℤ target (p +ℤ pos step) then target else p +ℤ pos step
    else if ltb_ℤ target p
    then if ltb_ℤ (p -ℤ pos step) target then target else p -ℤ pos step
    else p

abbrev pub enabled : ℤ → Controller → Controller
enabled scaled c = record c {
  current_pos = toward c.target_pos (step_of scaled) c.current_pos;
  last_target = c.target_pos;
  running = true;
  error = false;
  error_count = 0;
}

abbrev pub disabled : Controller → Controller
disabled c = if eqb_ℤ c.target_pos c.last_target then record c { running = false } else record c {
  running = false;
  error_count = c.error_count + 1;
  error = if ltb 10 (c.error_count + 1) then true else c.error;
}

unfoldable pub control : ℤ → Controller → Controller
control scaled c = if c.enable_in then enabled scaled c else disabled c

abbrev beat : ℤ → Option Shared → Option Shared
beat now none = none
beat now (some s) = some (record s {
  heartbeat = s.heartbeat + 1;
  cycle_count = s.cycle_count + 1;
  last_wakeup_ns = now;
})

abbrev beats : Option Shared → ℕ
beats none = 0
beats (some s) = s.heartbeat

abbrev controlled : ℤ → ℤ → Controller → Option Shared → Option Controller × Option Shared
controlled scaled now c shared =
    (some (record (control scaled c) { heartbeat_out = beats (beat now shared) }), beat now shared)

-- `now` is what rtapi_get_time returns; without pins the call does nothing.
unfoldable pub task_controller :
    ℤ → ℤ → Option Controller → Option Shared → Option Controller × Option Shared
task_controller scaled now none shared = (none, shared)
task_controller scaled now (some c) shared = controlled scaled now c shared

-- A row of cycles, each with its step and its time.
unfoldable pub cycles :
    List (ℤ × ℤ) → Option Controller → Option Shared → Option Controller × Option Shared
cycles [] c shared = (c, shared)
cycles (x ∷ xs) c shared = let r = task_controller x.0 x.1 c shared in cycles xs r.0 r.1
