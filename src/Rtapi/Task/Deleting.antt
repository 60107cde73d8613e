-- ===== src/Rtapi/Task/Deleting.antt =====
-- rtapi/uspace_rtapi_app.cpp: what `task_delete` does with a task that runs, and with one that does
-- not.
use real_time_system.Common.{
  ℕ, ◌+◌, ◌≡◌, ◌≢◌, ◌<◌, ◌⊎◌, refl, none, some, List, arith, get_elem?, set, get_elem?-set_self,
  get_elem?-lt, length, ap, sym, ◌∙◌, inr, einval, os, ok, err, done, fault,
}
use real_time_system.Common.Int.{pos}
use real_time_system.Rtapi.Task.{
  Task, allocated, running, paused, Slot, null, task, task_magic, max_tasks, ThreadOs, attr_code,
  get_task, start_task, timed, task_start, delete_task, task_delete, join, on_task, pause_task,
  task_pause,
}

-- The task that a failed `pthread_create` leaves.
abbrev start_failed : ThreadOs → ℕ → Task → Task
start_failed sys period t = record (timed period t) { state = allocated; error_code = sys.create }

module _ (slots : List Slot) (n : ℕ) {t : Task} (inside : n < max_tasks)
    (here : get_elem? slots n ≡ some (task t)) (valid : t.magic ≡ task_magic) where
  get_task_here : get_task slots n ≡ some t
  unfolding get_task
  get_task_here = ground arith

  -- A started task is deleted: its slot is NULL afterwards, and a second deletion returns -EINVAL
  -- and changes nothing.
  pub delete_started :
      (x : ℕ)
      → t.thr ≡ some x
      → (t.state ≡ running) ⊎ (t.state ≡ paused)
      → (task_delete slots (pos n) ≡ done (ok 0, set slots n null))
        × (task_delete (set slots n null) (pos n) ≡ done (err einval, set slots n null))
  unfolding task_delete delete_task join get_task
  delete_started x thread started = (
    ground (arith, get_task_here),
    ground (arith, get_elem?-set_self slots n null (get_elem?-lt slots n here)),
  )

  -- A task that was never started has no thread to cancel, and its deletion is undefined.
  pub delete_unstarted : t.thr ≡ none → t.state ≡ allocated → task_delete slots (pos n) ≡ fault
  unfolding task_delete delete_task join
  delete_unstarted no_thread unstarted = ground (arith, get_task_here)

  start_failed_lem :
      (sys : ThreadOs) (period : ℕ)
      → t.state ≡ allocated
      → attr_code sys ≡ 0
      → sys.create ≢ 0
      → task_start sys slots (pos n) period
        ≡ (err (os sys.create), set slots n (task (start_failed sys period t)))
  unfolding task_start on_task start_task
  start_failed_lem sys period unstarted attrs failed = ground (arith, get_task_here)

  paused_lem :
      t.state ≡ running
      → (task_pause slots (pos n)).1
        ≡ set slots n (task (record t { state = paused; pause_sem = t.pause_sem + 1 }))
  unfolding task_pause pause_task on_task
  paused_lem r = ground (arith, get_task_here)

null_slot : (slots : List Slot) (n : ℕ) → n < length slots → get_task (set slots n null) n ≡ none
unfolding get_task
null_slot slots n h = ground (arith, get_elem?-set_self slots n null h)

-- A running task that is paused and then deleted, as `free_thread_struct` does it, is gone.
pub delete-pause :
    (slots : List Slot) (n : ℕ) (t : Task) (x : ℕ)
    → n < max_tasks
    → get_elem? slots n ≡ some (task t)
    → t.magic ≡ task_magic
    → t.thr ≡ some x
    → t.state ≡ running
    → (s : List Slot) × (task_delete (task_pause slots (pos n)).1 (pos n) ≡ done (ok 0, s))
      × (get_task s n ≡ none)
delete-pause slots n t x inside here valid thread r =
    let t' = record t { state = paused; pause_sem = t.pause_sem + 1 } in
    let s1 = set slots n (task t') in
    let here1 : get_elem? s1 n ≡ some (task t') =
      get_elem?-set_self slots n (task t') (get_elem?-lt slots n here) in
    (
      set s1 n null,
      ap (λ s. task_delete s (pos n)) (paused_lem slots n inside here valid r)
          ∙ (delete_started s1 n inside here1 valid x thread (inr refl)).0,
      null_slot s1 n (get_elem?-lt s1 n here1),
    )

-- If `pthread_create` fails for an allocated task, `task_start` returns its code and changes only the
-- slot of the task, which stays ALLOCATED with no thread, with the period and the code stored; and the
-- deletion that should clean up is undefined.
pub delete-start_failed :
    (slots : List Slot) (n : ℕ) (t : Task) (sys : ThreadOs) (period : ℕ)
    → n < max_tasks
    → get_elem? slots n ≡ some (task t)
    → t.magic ≡ task_magic
    → t.thr ≡ none
    → t.state ≡ allocated
    → attr_code sys ≡ 0
    → sys.create ≢ 0
    → (u : Task) × (task_start sys slots (pos n) period
        ≡ (err (os sys.create), set slots n (task u)))
      × (u.state ≡ allocated)
      × (u.thr ≡ none)
      × (u ≡ record (timed period t) { error_code = sys.create })
      × (task_delete (set slots n (task u)) (pos n) ≡ fault)
delete-start_failed slots n t sys period inside here valid no_thread unstarted attrs failed = (
  start_failed sys period t,
  start_failed_lem slots n inside here valid sys period unstarted attrs failed,
  refl,
  no_thread,
  ap (λ s. record (timed period t) { state = s; error_code = sys.create }) (sym unstarted),
  delete_unstarted (set slots n (task (start_failed sys period t))) n inside
      (get_elem?-set_self slots n _ (get_elem?-lt slots n here)) valid no_thread refl,
)
