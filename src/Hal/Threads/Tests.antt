-- ===== src/Hal/Threads/Tests.antt =====
-- hal/hal_lib.c: the deletion of threads on small inputs.
use real_time_system.Common.{ℕ, ◌≡◌, refl, some, List, [], ◌∷◌, hang, arith, replicate}
use real_time_system.Common.Int.{pos}
use real_time_system.Rtapi.Task.{no_tasks, Task, Slot, Request, task, null, new_task, running}
use real_time_system.Rtapi.Task.Started.{none_from}
use real_time_system.Hal.Data.{HalData, Thread}
use real_time_system.Hal.Fixture.{mounted_data, thread_t}
use real_time_system.Hal.Threads.{hal_thread_delete, take_thread}
use real_time_system.Hal.Threads.Deletion.{EndsCounted, delete-EndsCounted, delete_hangs}

abbrev request : Request
request = record { taskcode = 4000; arg = 9; prio = pos 50; owner = 1; stacksize = 0; uses_fp = 1 }

-- Two threads, the second with a pseudo component, and their tasks.
abbrev thread_u : Thread
thread_u = record thread_t {
  off = 800;
  task_id = 1;
  funct_list = [];
  name = 117 ∷ [];
  comp_id = pos 5;
}

abbrev two_threads : HalData
two_threads = record mounted_data { thread_list = thread_t ∷ thread_u ∷ [] }

abbrev task_at : ℕ → Task
task_at x = record (new_task 77 request 0) { state = running; thr = some x }

abbrev slots : List Slot
slots = task (task_at 11) ∷ task (task_at 12) ∷ replicate 62 null

delete-EndsCounted_example :
    EndsCounted (116 ∷ []) two_threads (hal_thread_delete (116 ∷ []) (some two_threads) slots)
delete-EndsCounted_example =
    delete-EndsCounted (116 ∷ []) two_threads slots (tt, (tt, none_from 62)) refl
      ((omega arith, refl), tt)

-- The thread has the pseudo component 5.
abbrev owned_thread : Thread
owned_thread = record thread_t { comp_id = pos 5 }

abbrev owned_data : HalData
owned_data = record mounted_data { thread_list = owned_thread ∷ [] }

taken : take_thread (116 ∷ []) owned_data.thread_list ≡ some (owned_thread, [])
unfolding take_thread
taken = refl

delete_hangs_example : hal_thread_delete (116 ∷ []) (some owned_data) no_tasks ≡ hang
delete_hangs_example =
    delete_hangs (116 ∷ []) owned_data no_tasks owned_thread [] refl refl refl taken (ground arith)
