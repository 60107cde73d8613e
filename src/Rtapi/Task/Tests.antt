-- ===== src/Rtapi/Task/Tests.antt =====
-- rtapi/uspace_rtapi_app.cpp: tasks on small inputs.
use real_time_system.Common.{
  ℕ, zero, suc, ◌≡◌, inl, inr, refl, true, false, none, some, List, ◌∷◌, ok, err, einval, os, done,
  fault, arith, set, replicate,
}
use real_time_system.Common.Int.{pos}
use real_time_system.Rtapi.Task.{
  Task, allocated, running, paused, Slot, null, task, Request, ThreadOs, new_task, timed,
  task_start, task_delete, pause_task, task_pause,
}
use real_time_system.Rtapi.Task.Slots.{Moves, state_at}
use real_time_system.Rtapi.Task.Lifecycle.{pauses, step, AllSound, step-Moves, step-AllSound}
use real_time_system.Rtapi.Task.Deleting.{delete_started, delete-start_failed}
use real_time_system.Rtapi.Task.Wait.{wait_begin, wait_wake}
use real_time_system.Rtapi.Task.Pausing.{
  Run, Reach, here, next, calls_pause, polls, pause, resume, pause_not_lost, resume_wakes,
  resume_twice,
}
use real_time_system.Rtapi.Task.Cycle.{IsTimed, timed-IsTimed}

abbrev request : Request
request = record { taskcode = 4000; arg = 9; prio = pos 50; owner = 1; stacksize = 0; uses_fp = 1 }

-- Allocated, started, and paused.
abbrev fresh_task : Task
fresh_task = new_task 77 request 0

abbrev started_task : Task
started_task = record (timed 1_000_000 fresh_task) { state = running; thr = some 11 }

abbrev paused_task : Task
paused_task = record started_task { state = paused; pause_sem = 1 }

abbrev holding : Task → List Slot
holding t = task t ∷ replicate 63 null

null-IsSound : AllSound (replicate 63 null)
null-IsSound = all_null 63
  where
    all_null : (n : ℕ) → AllSound (replicate n null)
    all_null zero k = tt
    all_null (suc n) zero = tt
    all_null (suc n) (suc k) = all_null n k

started-AllSound : AllSound (holding started_task)
started-AllSound zero = (refl, inr (11, refl, inl refl))
started-AllSound (suc k) = null-IsSound k

pause_returns : step (holding started_task) (pauses (pos 0)) ≡ done (holding paused_task)
unfolding step task_pause
pause_returns = refl

step-Moves_example : Moves (state_at (holding started_task) 0) (state_at (holding paused_task) 0)
step-Moves_example =
    step-Moves (holding started_task) (holding paused_task) (pauses (pos 0)) started-AllSound
      pause_returns 0

step-AllSound_example : AllSound (holding paused_task)
step-AllSound_example =
    step-AllSound (holding started_task) (holding paused_task) (pauses (pos 0)) started-AllSound
      pause_returns

delete_started_example :
    (task_delete (holding started_task) (pos 0) ≡ done (ok 0, set (holding started_task) 0 null))
    × (task_delete (set (holding started_task) 0 null) (pos 0)
        ≡ done (err einval, set (holding started_task) 0 null))
delete_started_example =
    delete_started (holding started_task) 0 {t = started_task} (omega arith) refl refl 11 refl
      (inl refl)

-- pthread_create returns EAGAIN.
abbrev no_thread : ThreadOs
no_thread = record {
  attr_init = 0;
  attr_setstacksize = 0;
  attr_setschedpolicy = 0;
  attr_setschedparam = 0;
  attr_setinheritsched = 0;
  attr_setaffinity = 0;
  nprocs = 1;
  rt_cpu_number = pos 0;
  create = 11;
  thread = 0;
}

delete-start_failed_example :
    (u : Task) × (task_start no_thread (holding fresh_task) (pos 0) 1_000_000
      ≡ (err (os 11), set (holding fresh_task) 0 (task u)))
    × (u.state ≡ allocated)
    × (u.thr ≡ none)
    × (u ≡ record (timed 1_000_000 fresh_task) { error_code = 11 })
    × (task_delete (set (holding fresh_task) 0 (task u)) (pos 0) ≡ fault)
delete-start_failed_example =
    delete-start_failed (holding fresh_task) 0 fresh_task no_thread 1_000_000 (omega arith) refl
      refl refl refl refl (omega arith)

-- A run in which the control side pauses the task, before and after the thread polls.
abbrev fresh_run : Run
fresh_run = record { of = started_task; blocked = false }

abbrev paused_run : Run
paused_run = record { of = pause started_task; blocked = false }

abbrev blocked_run : Run
blocked_run = record { of = (wait_begin (pause started_task)).0; blocked = true }

paused-Reach : Reach fresh_run paused_run
paused-Reach = next here calls_pause

blocked-Reach : Reach fresh_run blocked_run
unfolding wait_begin pause_task
blocked-Reach = next paused-Reach (polls refl)

pause_not_lost_example : (wait_begin paused_run.of).1 ≡ true
unfolding pause_task
pause_not_lost_example = pause_not_lost (refl, refl, refl, refl) paused-Reach refl refl

resume_wakes_example :
    (t : Task) × (wait_wake (resume blocked_run.of) ≡ some t)
    × (t.state ≡ running)
    × ((wait_begin t).1 ≡ false)
resume_wakes_example = resume_wakes (refl, refl, refl, refl) blocked-Reach refl

resume_twice_example :
    (t : Task) × (wait_wake (resume (resume blocked_run.of)) ≡ some t)
    × ((wait_begin (pause t)).1 ≡ true)
    × ((u : Task) × (wait_wake (wait_begin (pause t)).0 ≡ some u))
resume_twice_example = resume_twice (refl, refl, refl, refl) blocked-Reach refl

started-IsTimed : IsTimed (timed 1_000_000 fresh_task)
started-IsTimed = timed-IsTimed 1_000_000 fresh_task (omega arith)
