-- ===== src/ExampleTask/Channel/Tests.antt =====
-- ExampleTask/operate.cpp and ExampleTask/funct_command.c: commands on a small channel.
use real_time_system.Common.{◌≡◌, refl, true, false, none, some, [], ◌∷◌, List, arith}
use real_time_system.Common.Int.{ℤ, pos, negsuc}
use real_time_system.ExampleTask.Controller.{Controller, cycles}
use real_time_system.ExampleTask.Controller.Target.{IsThere}
use real_time_system.ExampleTask.Channel.{
  set_target, enable, Channel, World, send_command, process, task_command_handler,
}
use real_time_system.ExampleTask.Channel.Delivery.{handled, then_send, first_lost, target-arrives}

abbrev channel : Channel
channel = record {
  command_mutex = false;
  head = 4;
  tail = 4;
  command_id = enable;
  command_data = pos 0;
}

abbrev moving : Controller
moving = record {
  enable_in = true;
  target_pos = pos 0;
  current_pos = pos 1;
  running = true;
  error = false;
  heartbeat_out = 0;
  last_target = pos 0;
  error_count = 0;
}

abbrev world : World
world = record { hal_data = some moving; slots = []; self = none }

abbrev times : List (ℤ × ℤ)
times = (pos 1, pos 200) ∷ (pos 0, pos 300) ∷ (pos 1, pos 400) ∷ []

first_lost_example :
    let r =
      handled world (then_send enable (pos 0) (send_command set_target (pos 9) (some channel))) in
    (r.1 ≡ process enable (pos 0) world) × (task_command_handler r.0 r.1 ≡ r)
first_lost_example = first_lost set_target enable (pos 9) (pos 0) channel world (refl, omega arith)

target-arrives_example :
    IsThere
      (record moving { target_pos = negsuc 1 })
      (cycles times
        (handled world (send_command set_target (negsuc 1) (some channel))).1.hal_data
        none).0
target-arrives_example =
    target-arrives (negsuc 1) channel world moving times none (refl, omega arith) refl refl
      (omega arith)
