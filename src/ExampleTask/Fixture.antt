-- ===== src/ExampleTask/Fixture.antt =====
-- ExampleTask/task.c: a process on which the tests set the example task up.
use real_time_system.Common.{ℕ, false, none, ok, returned}
use real_time_system.Common.Int.{pos, negsuc}
use real_time_system.Rtapi.Task.{ThreadOs, no_tasks}
use real_time_system.Rtapi.Shmem.{ShmOs, no_segments}
use real_time_system.Rtapi.Shmem.Uuid.{no_modules}
use real_time_system.Hal.Fixture.{sizes, zero_data}
use real_time_system.ExampleTask.Channel.{cmd_none}
use real_time_system.ExampleTask.Setup.{Application, Site}

-- A system that maps at the address it is given.
abbrev system : ℕ → ShmOs
system at = record {
  getpid = 77;
  shmget = λ _. returned 3;
  shmat = λ _. returned at;
  shmdt = λ _. returned tt;
  nattch = λ _. returned 0;
  rmid = λ _. returned tt;
}

abbrev threads : ThreadOs
threads = record {
  attr_init = 0;
  attr_setstacksize = 0;
  attr_setschedpolicy = 0;
  attr_setschedparam = 0;
  attr_setinheritsched = 0;
  attr_setaffinity = 0;
  nprocs = 1;
  rt_cpu_number = negsuc 0;
  create = 0;
  thread = 9;
}

abbrev pub site : Site
site = record {
  boot = record {
    sizes = sizes;
    pid = 77;
    uuid_os = system 8192;
    memory_os = system 16_384;
    exit_os = system 0;
    uuid_found = record { counter = 0; taken = false };
    found = zero_data;
  };
  env = record {
    sizes = sizes;
    base = 0;
    lib_module_id = 0;
    thread_task = 8000;
    highest = pos 99;
    lowest = pos 1;
    pid = 77;
    thread_os = threads;
    uuid = ok 0;
  };
  uuid_os = system 8192;
  pseudo_os = system 8192;
  shared_os = system 2_000_000;
  shared_size = 64;
  shared_found = record {
    command_mutex = false;
    head = 0;
    tail = 0;
    command_id = cmd_none;
    command_data = pos 0;
  };
  block = record {
    size = 64;
    enable_in_at = 0;
    target_pos_at = 8;
    feed_rate_at = 16;
    current_pos_at = 24;
    running_at = 32;
    error_at = 40;
    heartbeat_out_at = 48;
    max_velocity_at = 56;
    max_accel_at = 60;
  };
  handler = 4000;
  controller = 5000;
  through_seconds = λ n. n;
}

abbrev pub fresh : Application
fresh = record {
  process = record {
    modules = no_modules no_segments;
    lib_module_id = negsuc 0;
    lib_mem_id = pos 0;
    hal_shmem_base = 0;
    hal = none;
    slots = no_tasks;
  };
  period = pos 0;
  mot_comp_id = pos 0;
  emc_shmem_id = pos 0;
  task_shared = none;
  task_hal_data = none;
  max_velocity = pos 0;
  max_accel = pos 0;
  task_period_nsec = 1_000_000;
  subtask_period_nsec = 0;
  num_axis = pos 4;
}
