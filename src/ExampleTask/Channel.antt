-- ===== src/ExampleTask/Channel.antt =====
-- The command channel of the example task: ExampleTask/operate.cpp `send_command` writes a command,
-- and ExampleTask/funct_command.c `taskCommandHandler` takes it, once in a cycle. Each is one step here:
-- the two sides share the channel, and a side that finds the mutex taken meets the other one within its
-- step.
pub mod Delivery
mod Tests
use real_time_system.Common.{
  ℕ, ◌+◌, Bool, true, false, Option, none, some, List, Outcome, done, hang, set, ◌==◌,
  if◌then◌else◌,
}
use real_time_system.Common.Int.{ℤ, pos, negsuc}
use real_time_system.Rtapi.Task.{Slot, task, get_task, task_pause, task_resume}
use real_time_system.Rtapi.Task.Wait.{pll_set_correction}
use real_time_system.ExampleTask.Controller.{Controller}

-- `cmd_none` is also every number that names no command.
pub data CommandId : Type 0 where
  cmd_none set_target enable disable pause resume set_pll shutdown : CommandId

-- `task_shared_t` without what the controller keeps there.
pub record Channel : Type 0 where
  pub command_mutex : Bool
  pub head : ℕ
  pub tail : ℕ
  pub command_id : CommandId
  pub command_data : ℤ

-- What the commands act on: the values behind the pins, and the tasks, one of which is the thread that
-- runs the handler, if it is a task.
pub record World : Type 0 where
  pub hal_data : Option Controller
  pub slots : List Slot
  pub self : Option ℕ

abbrev pub written : CommandId → ℤ → Channel → Channel
written cmd value c = record c {
  command_mutex = false;
  command_id = cmd;
  command_data = value;
  head = c.head + 1;
}

-- `hang` as long as the mutex is taken.
unfoldable pub send_command : CommandId → ℤ → Option Channel → Outcome (ℤ × Option Channel)
send_command cmd value none = done (negsuc 0, none)
send_command cmd value (some c) =
    if c.command_mutex then hang else done (pos 0, some (written cmd value c))

abbrev on_pins : (Controller → Controller) → World → World
on_pins f t = elim t.hal_data [ none ↦ t | some c ↦ record t { hal_data = some (f c) } ]

abbrev on_self : (ℕ → List Slot → List Slot) → World → World
on_self f t = elim t.self [ none ↦ t | some n ↦ record t { slots = f n t.slots } ]

abbrev pll_corrected : ℤ → ℕ → List Slot → List Slot
pll_corrected value n slots = elim (get_task slots n) [
  | none ↦ slots
  | some t ↦ set slots n (task (pll_set_correction value t))
]

-- The switch over the command. What the forwarded calls return is not looked at.
unfoldable pub process : CommandId → ℤ → World → World
process set_target value t = on_pins (λ c. record c { target_pos = value }) t
process enable value t = on_pins (λ c. record c { enable_in = true }) t
process disable value t = on_pins (λ c. record c { enable_in = false }) t
process pause value t = on_self (λ n slots. (task_pause slots (pos n)).1) t
process resume value t = on_self (λ n slots. (task_resume slots (pos n)).1) t
process set_pll value t = on_self (pll_corrected value) t
process shutdown value t = t
process cmd_none value t = t

abbrev consumed : Channel → Channel
consumed c = record c { tail = c.head }

-- With the mutex held.
abbrev take_command : Channel → World → Channel × World
take_command c t =
    if c.head == c.tail then (c, t) else (consumed c, process c.command_id c.command_data t)

unfoldable pub task_command_handler : Option Channel → World → Option Channel × World
task_command_handler none t = (none, t)
task_command_handler (some c) t =
    if c.command_mutex then (some c, t) else let r = take_command c t in (some r.0, r.1)
