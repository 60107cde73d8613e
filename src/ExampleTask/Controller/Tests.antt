-- ===== src/ExampleTask/Controller/Tests.antt =====
-- ExampleTask/funct_control.c: the controller on small inputs.
use real_time_system.Common.{◌≡◌, refl, true, false, none, some, List, [], ◌∷◌}
use real_time_system.Common.Int.{ℤ, pos, negsuc}
use real_time_system.ExampleTask.Controller.{Controller, Shared, cycles}
use real_time_system.ExampleTask.Controller.Latch.{error_of, cycles-error}

abbrev shared : Shared
shared = record { heartbeat = 7; cycle_count = 7; last_wakeup_ns = pos 100 }

abbrev moving : Controller
moving = record {
  enable_in = true;
  target_pos = negsuc 4;
  current_pos = pos 2;
  running = false;
  error = false;
  heartbeat_out = 7;
  last_target = pos 0;
  error_count = 0;
}

abbrev held : Controller
held = record moving { enable_in = false; error_count = 8 }

-- The steps are 3, 1 (from a value of 0), 2 and so on.
abbrev times : List (ℤ × ℤ)
times =
    (pos 3, pos 200)
    ∷ (pos 0, pos 300)
    ∷ (pos 2, pos 400)
    ∷ (negsuc 0, pos 500)
    ∷ (pos 9, pos 600)
    ∷ (pos 1, pos 700)
    ∷ (pos 1, pos 800)
    ∷ []

cycles-error_example :
    error_of
      (cycles ((pos 3, pos 200) ∷ (pos 3, pos 300) ∷ (pos 3, pos 400) ∷ []) (some held) none).0
    ≡ some true
cycles-error_example =
    cycles-error ((pos 3, pos 200) ∷ (pos 3, pos 300) ∷ (pos 3, pos 400) ∷ []) held none
      (refl, refl) refl
