-- ===== src/Rtapi/Task/Waiting/Tests.antt =====
-- rtapi/uspace_rtapi_app.cpp: `Posix::wait` on small inputs.
use real_time_system.Common.{false, ok, ◌<◌, ◌+◌, ◌*◌, ◌≤◌, ◌≡◌, refl, [], ◌∷◌, some, arith}
use real_time_system.Common.Int.{pos, pos_part}
use real_time_system.Rtapi.Timespec.{
  Timespec, one_sec_in_ns, total, rtapi_timespec_less, rtapi_timespec_advance,
}
use real_time_system.Rtapi.Task.{Task, Request, running, new_task, timed}
use real_time_system.Rtapi.Task.Wait.{begun, wait_begin, wait_advance, is_late}
use real_time_system.Rtapi.Task.Cycle.{timed-IsTimed}
use real_time_system.Rtapi.Task.Waiting.{posix_wait, sleeps, late, task_pll_get_reference}
use real_time_system.Rtapi.Task.Waiting.Rhythm.{waits, begun-reference}
use real_time_system.Rtapi.Task.Waiting.Sleeping.{
  Sleep, timer_abstime, rtapi_clock_nanosleep, nanosleep-wait,
}

abbrev request : Request
request = record { taskcode = 4000; arg = 9; prio = pos 50; owner = 1; stacksize = 0; uses_fp = 1 }

abbrev ticking : Task
ticking = record (timed 1_000_000 (new_task 77 request 0)) { state = running; thr = some 11 }

abbrev morning : Timespec
morning = record { sec = 0; nsec = 400_000 }

abbrev noon : Timespec
noon = record { sec = 7; nsec = 0 }

begun-reference_example :
    (t' : Task) × (waits (morning ∷ noon ∷ []) (some (begun morning ticking)) ≡ some t')
    × (total morning + 3 * 1_000_000 ≤ task_pll_get_reference (some t') + 3 * 10_000)
    × (task_pll_get_reference (some t') ≤ total morning + 3 * 1_000_000 + 3 * 10_000)
begun-reference_example =
    begun-reference morning (morning ∷ noon ∷ []) ticking
      (timed-IsTimed 1_000_000 ticking (omega arith)) (omega arith) refl

-- In time the thread sleeps until the next cycle, and too late it goes on.
in_time : posix_wait false morning ticking ≡ sleeps (wait_advance ticking)
unfolding posix_wait wait_begin wait_advance is_late rtapi_timespec_less rtapi_timespec_advance
in_time = refl

overslept : posix_wait false noon ticking ≡ late (wait_advance ticking)
unfolding posix_wait wait_begin wait_advance is_late rtapi_timespec_less rtapi_timespec_advance
overslept = refl

nanosleep-wait_example :
    (s : Sleep) × (rtapi_clock_nanosleep timer_abstime (wait_advance ticking).nextstart morning
      ≡ ok s)
    × (s.nsec < one_sec_in_ns)
    × (s.sec ≡ pos (pos_part s.sec))
    × (pos_part s.sec * one_sec_in_ns + s.nsec + total morning
        ≡ total (wait_advance ticking).nextstart)
nanosleep-wait_example =
    nanosleep-wait false morning ticking (wait_advance ticking) (omega arith)
      (timed-IsTimed 1_000_000 ticking (omega arith)) (omega arith) in_time
