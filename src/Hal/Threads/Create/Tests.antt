-- ===== src/Hal/Threads/Create/Tests.antt =====
-- hal/hal_lib.c: `hal_create_thread` on small inputs.
use real_time_system.Common.{◌≡◌, refl, true, some, none, [], ◌∷◌, List, set, arith, ok}
use real_time_system.Common.Int.{pos, negsuc}
use real_time_system.Rtapi.Task.{Task, Slot, task, running, ThreadOs, new_task, no_tasks}
use real_time_system.Hal.Data.{Thread}
use real_time_system.Hal.Pool.{shmalloc_dn}
use real_time_system.Hal.Structs.{alloc_thread_struct}
use real_time_system.Hal.Sorted.{find_by_name}
use real_time_system.Hal.Fixture.{sizes, mounted_data, thread_t}
use real_time_system.Hal.Threads.Create.{Machine, Env, Asked, hal_create_thread, link_thread}
use real_time_system.Hal.Threads.Create.Running.{Links, link-Links}
use real_time_system.Hal.Threads.Create.Rollback.{IsSilenced, create-refused}

abbrev willing : ThreadOs
willing = record {
  attr_init = 0;
  attr_setstacksize = 0;
  attr_setschedpolicy = 0;
  attr_setschedparam = 0;
  attr_setinheritsched = 0;
  attr_setaffinity = 0;
  nprocs = 1;
  rt_cpu_number = negsuc 0;
  create = 0;
  thread = 9;
}

abbrev env : Env
env = record {
  sizes = sizes;
  base = 0;
  lib_module_id = 1;
  thread_task = 8000;
  highest = pos 99;
  lowest = pos 1;
  pid = 77;
  thread_os = willing;
  uuid = ok 6;
}

abbrev asked : Asked
asked = record { name = 117 ∷ []; period_nsec = 500_000; uses_fp = 0; priority = pos 98 }

-- The task of the first thread.
abbrev task_0 : Task
task_0 =
    record (new_task 77
      (record {
        taskcode = 8000;
        arg = 700;
        prio = pos 50;
        owner = 1;
        stacksize = 16_384;
        uses_fp = 1;
      })
      0) { state = running; thr = some 5 }

abbrev slots : List Slot
slots = set no_tasks 0 (task task_0)

abbrev machine : Machine
machine = record { hal = some mounted_data; slots = slots; period = pos 1_000_000 }

link-Links_example : Links env asked mounted_data.thread_list (link_thread env asked machine)
link-Links_example = link-Links env asked mounted_data slots (pos 1_000_000)

abbrev fresh_thread : Thread
fresh_thread = record {
  off = 1_048_448;
  uses_fp = 0;
  period = 0;
  priority = pos 0;
  task_id = 0;
  runtime = pos 0;
  maxtime = pos 0;
  funct_list = [];
  name = [];
  comp_id = pos 0;
}

unnamed : find_by_name (λ (t : Thread). t.name) (117 ∷ []) mounted_data.thread_list ≡ none
unfolding find_by_name
unnamed = refl

allocated_thread :
    (alloc_thread_struct sizes (record mounted_data { mutex = true })).0 ≡ some fresh_thread
unfolding alloc_thread_struct shmalloc_dn
allocated_thread = refl

create-refused_example :
    IsSilenced (hal_create_thread env (record asked { priority = pos 120 }) machine)
create-refused_example =
    create-refused env (record asked { priority = pos 120 }) mounted_data slots (pos 1_000_000)
      thread_t [] fresh_thread task_0 5 (ground arith) refl refl refl unnamed allocated_thread refl
      refl refl refl refl refl
