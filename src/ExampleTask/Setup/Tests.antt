-- ===== src/ExampleTask/Setup/Tests.antt =====
-- ExampleTask/task.c: the set-up of the example task on a fresh process.
use real_time_system.Common.Runs.{Post}
use real_time_system.ExampleTask.Setup.Main.{task_thread_main}
use real_time_system.ExampleTask.Setup.Main.Success.{IfZero, IsSetUp, main-IsSetUp}
use real_time_system.ExampleTask.Setup.Main.Phases.{HasPhases}
use real_time_system.ExampleTask.Fixture.{site, fresh}

main-IsSetUp_example :
    Post (IfZero (λ b. HasPhases site fresh b × IsSetUp b)) (task_thread_main site fresh)
main-IsSetUp_example = main-IsSetUp site fresh
