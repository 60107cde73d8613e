-- ===== src/Rtapi/Task/Pausing.antt =====
-- rtapi/uspace_rtapi_app.cpp: a task thread and a control side that pauses and resumes it.
use real_time_system.Common.{◌+◌, ◌≡◌, ◌⊎◌, inl, refl, Bool, true, false, some, arith}
use real_time_system.Rtapi.Task.{Task, running, paused, Slot, task, pause_task, resume_task}
use real_time_system.Rtapi.Task.Wait.{wait_begin, wait_wake}

-- A started task, and whether its thread is blocked in `sem_wait`.
pub record Run : Type 0 where
  pub of : Task
  pub blocked : Bool

abbrev task_of : Task → Slot → Task
task_of t (task u) = u
task_of t _ = t

-- The task after `task_pause` and after `task_resume`.
abbrev pub pause : Task → Task
pause t = task_of t (pause_task t).1

abbrev pub resume : Task → Task
resume t = task_of t (resume_task t).1

-- The control side calls at any time; the thread polls at the end of a cycle, and wakes up when it
-- is blocked and finds a token.
pub data Step (r : Run) : Run → Type 0 where
  calls_pause : Step r (record r { of = pause r.of })
  calls_resume : Step r (record r { of = resume r.of })
  polls :
      r.blocked ≡ false
      → Step r (record { of = (wait_begin r.of).0; blocked = (wait_begin r.of).1 })
  wakes :
      {t : Task}
      → r.blocked ≡ true
      → wait_wake r.of ≡ some t
      → Step r (record { of = t; blocked = false })

pub data Reach (start : Run) : Run → Type 0 where
  here : Reach start start
  next : {r s : Run} → Reach start r → Step r s → Reach start s

-- A task as `task_start` leaves it.
abbrev pub IsFresh : Run → Type 0
IsFresh r =
    (r.of.state ≡ running) × (r.of.pause_sem ≡ 0) × (r.of.resume_sem ≡ 0) × (r.blocked ≡ false)

-- A running task has no pause token and no blocked thread; a paused one has a token that the thread
-- has not taken yet, or a blocked thread.
abbrev pub Inv : Run → Type 0
Inv r =
    ((r.of.state ≡ running) × (r.of.pause_sem ≡ 0) × (r.blocked ≡ false))
    ⊎ (((r.of.state ≡ paused) × (r.of.pause_sem ≡ 1) × (r.blocked ≡ false))
        ⊎ ((r.of.state ≡ paused) × (r.of.pause_sem ≡ 0) × (r.blocked ≡ true)))

Step-Inv : {r s : Run} → Step r s → Inv r → Inv s
unfolding pause_task resume_task wait_begin wait_wake
Step-Inv calls_pause v = ground arith
Step-Inv calls_resume v = ground arith
Step-Inv (polls e) v = ground arith
Step-Inv (wakes e w) v = ground arith

Reach-Inv : {start r : Run} → IsFresh start → Reach start r → Inv r
Reach-Inv fresh here = inl (fresh.0, fresh.1, fresh.3)
Reach-Inv fresh (next r st) = Step-Inv st (Reach-Inv fresh r)

-- Whatever the order of the calls and of the thread's steps, a task that `task_pause` has paused
-- blocks at its next poll, if it is not blocked already: no pause request is lost.
pub pause_not_lost :
    {start r : Run}
    → IsFresh start
    → Reach start r
    → r.of.state ≡ paused
    → r.blocked ≡ false
    → (wait_begin r.of).1 ≡ true
unfolding wait_begin
pause_not_lost {start} {r} fresh reach is_paused awake = ground (arith, Reach-Inv fresh reach)

-- A blocked thread that is resumed wakes up and runs, with no pause request left.
pub resume_wakes :
    {start r : Run}
    → IsFresh start
    → Reach start r
    → r.blocked ≡ true
    → (t : Task) × (wait_wake (resume r.of) ≡ some t)
      × (t.state ≡ running)
      × ((wait_begin t).1 ≡ false)
unfolding wait_wake wait_begin resume_task
resume_wakes {start} {r} fresh reach is_blocked = (
  record (r.of) { state = running },
  ground (arith, Reach-Inv fresh reach),
  refl,
  ground (arith, Reach-Inv fresh reach),
)

-- A second `task_resume` before the thread has woken up leaves a token behind: the thread that is
-- then paused once more blocks, and wakes up at once although nobody has resumed it.
pub resume_twice :
    {start r : Run}
    → IsFresh start
    → Reach start r
    → r.blocked ≡ true
    → (t : Task) × (wait_wake (resume (resume r.of)) ≡ some t)
      × ((wait_begin (pause t)).1 ≡ true)
      × ((u : Task) × (wait_wake (wait_begin (pause t)).0 ≡ some u))
unfolding wait_wake wait_begin resume_task pause_task
resume_twice {start} {r} fresh reach is_blocked = (
  record (r.of) { state = running; resume_sem = r.of.resume_sem + 1 },
  ground (arith, Reach-Inv fresh reach),
  ground (arith, Reach-Inv fresh reach),
  (record (r.of) { state = running }, ground (arith, Reach-Inv fresh reach)),
)
