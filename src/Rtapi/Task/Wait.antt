-- ===== src/Rtapi/Task/Wait.antt =====
-- rtapi/uspace_rtapi_app.cpp: the parts of `Posix::wait`, in which a task ends a cycle, and the
-- correction of its period. The thread lock is not taken under SCHED_FIFO, the only policy in use.
use real_time_system.Common.{
  ℕ, ◌-◌, ◌%◌, ◌^◌, Bool, true, false, Option, none, some, ltb, if◌then◌else◌, Result, ok, err,
  einval,
}
use real_time_system.Common.Int.{ℤ, pos, negsuc, ◌+ℤ◌, ◌-ℤ◌, ltb_ℤ}
use real_time_system.Rtapi.Timespec.{Timespec, rtapi_timespec_advance, rtapi_timespec_less}
use real_time_system.Rtapi.Task.{Task, running}

-- `sem_trywait(&pause_sem)`: true if a token was there, and the thread goes on to block.
unfoldable pub wait_begin : Task → Task × Bool
wait_begin t =
    if ltb 0 t.pause_sem then (record t { pause_sem = t.pause_sem - 1 }, true) else (t, false)

-- `sem_wait(&resume_sem)` in a blocked thread: `none` while there is no token.
unfoldable pub wait_wake : Task → Option Task
wait_wake t =
    if ltb 0 t.resume_sem
    then some (record t { resume_sem = t.resume_sem - 1; state = running })
    else none

-- A long as an unsigned long.
abbrev pub to_unsigned_long : ℤ → ℕ
to_unsigned_long (pos n) = n % 2 ^ 64
to_unsigned_long (negsuc n) = 2 ^ 64 - 1 - n % 2 ^ 64

unfoldable pub wait_advance : Task → Task
unfolding ◌+ℤ◌
wait_advance t = record t {
  nextstart =
      rtapi_timespec_advance t.nextstart (to_unsigned_long (pos t.period +ℤ t.pll_correction));
}

-- `Posix::wrapper` before it calls the code of the task: the first cycle ends a period after `now`.
unfoldable pub begun : Timespec → Task → Task
unfolding ◌+ℤ◌
begun now t = record t {
  nextstart = rtapi_timespec_advance now (to_unsigned_long (pos t.period +ℤ t.pll_correction));
}

-- Whether the start of the next cycle has passed already; if not, the thread sleeps until then.
unfoldable pub is_late : Task → Timespec → Bool
is_late t now = rtapi_timespec_less t.nextstart now

-- `task_pll_set_correction` on the task of the calling thread.
unfoldable pub pll_set_correction : ℤ → Task → Task
unfolding ◌-ℤ◌
pll_set_correction value t =
    let high = if ltb_ℤ t.pll_correction_limit value then t.pll_correction_limit else value in
    record t {
      pll_correction =
          if ltb_ℤ high (pos 0 -ℤ t.pll_correction_limit)
          then pos 0 -ℤ t.pll_correction_limit
          else high;
    }

-- A thread that is no task has none to correct.
unfoldable pub task_pll_set_correction : ℤ → Option Task → Result ℕ × Option Task
unfolding pll_set_correction
task_pll_set_correction value none = (err einval, none)
task_pll_set_correction value (some t) = (ok 0, some (pll_set_correction value t))

unfoldable pub task_pll_get_correction : Option Task → Result ℤ
task_pll_get_correction none = err einval
task_pll_get_correction (some t) = ok t.pll_correction
