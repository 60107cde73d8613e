-- ===== src/Rtapi/Task/Waiting.antt =====
-- rtapi/uspace_rtapi_app.cpp: `Posix::wait`, and what a thread learns of its own task
-- (`Posix::task_self`, `Posix::task_pll_get_reference`). The thread lock is not taken under SCHED_FIFO.
pub mod Rhythm
pub mod Sleeping
mod Tests
use real_time_system.Common.{
  ℕ, ◌+◌, Bool, true, false, Option, none, some, if◌then◌else◌, Result, ok, err, einval,
}
use real_time_system.Rtapi.Timespec.{Timespec, total}
use real_time_system.Rtapi.Task.{Task}
use real_time_system.Rtapi.Task.Wait.{wait_begin, wait_wake, wait_advance, is_late}

-- How a call goes on: the thread is cancelled, blocks until it is resumed, goes on at once since the
-- start of the next cycle has passed, or sleeps until `nextstart`.
pub data Waited : Type 0 where
  cancelled : Waited
  blocked late sleeps : Task → Waited

-- The part after the pause. `now` is the reading of the clock; a late thread reports the delay once.
abbrev pub paced : Timespec → Task → Waited
paced now t = let t' = wait_advance t in if is_late t' now then late t' else sleeps t'

abbrev pub woken : Timespec → Task → Option Task → Waited
woken now t none = blocked t
woken now t (some t') = paced now t'

-- `is_cancelled` is whether a cancellation is pending at `pthread_testcancel`.
unfoldable pub posix_wait : Bool → Timespec → Task → Waited
unfolding wait_begin wait_wake wait_advance is_late
posix_wait is_cancelled now t =
    if is_cancelled
    then cancelled
    else if (wait_begin t).1
    then woken now (wait_begin t).0 (wait_wake (wait_begin t).0)
    else paced now (wait_begin t).0

-- The task of the calling thread, if it is one.
unfoldable pub task_self : Option Task → Result ℕ
task_self none = err einval
task_self (some t) = ok t.id

unfoldable pub task_pll_get_reference : Option Task → ℕ
task_pll_get_reference none = 0
task_pll_get_reference (some t) = total t.nextstart
