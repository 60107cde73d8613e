-- ===== src/Main/Tests.antt =====
-- main/taskmain.cpp: the program on a fresh process.
use real_time_system.Common.{false, [], ◌∷◌}
use real_time_system.Common.Int.{pos}
use real_time_system.Common.Runs.{Post}
use real_time_system.ExampleTask.Fixture.{site, fresh}
use real_time_system.Main.{Program, sigterm, main}
use real_time_system.Main.Ending.{IsOver, main-IsOver}

abbrev loaded : Program
loaded = record { app = fresh; task_initialised = false; threads_started = false; is_done = false }

main-IsOver_example : Post (λ _. IsOver) (main site (pos 0) (sigterm ∷ []) loaded)
main-IsOver_example = main-IsOver site (pos 0) (sigterm ∷ []) loaded
