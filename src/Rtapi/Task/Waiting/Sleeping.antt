-- ===== src/Rtapi/Task/Waiting/Sleeping.antt =====
-- rtapi/uspace_rtapi_app.cpp: `rtapi_clock_nanosleep`, compiled without HAVE_CLOCK_NANOSLEEP, which the
-- build does not set, and how long a thread sleeps in `Posix::wait`.
use real_time_system.Common.{
  ℕ, ◌+◌, ◌-◌, ◌*◌, ◌≤◌, ◌<◌, ◌≡◌, refl, ap, Bool, true, false, none, some, ltb, ◌==◌,
  if◌then◌else◌, Result, ok, err, einval, arith,
}
use real_time_system.Common.Int.{ℤ, pos, pos_part, ◌-ℤ◌}
use real_time_system.Rtapi.Timespec.{
  Timespec, one_sec_in_ns, IsNormal, total, rtapi_timespec_less, less_iff,
}
use mathlib.Core.Path.{subst}
use real_time_system.Rtapi.Task.{Task, running}
use real_time_system.Rtapi.Task.Wait.{wait_begin, wait_wake, wait_advance, is_late}
use real_time_system.Rtapi.Task.Cycle.{IsTimed, wait_advance_period}
use real_time_system.Rtapi.Task.Waiting.{Waited, cancelled, late, sleeps, paced, woken, posix_wait}

-- What `nanosleep` is asked for; the seconds can be negative.
pub record Sleep : Type 0 where
  pub sec : ℤ
  pub nsec : ℕ

unfoldable pub timespecsub : Timespec → Timespec → Sleep
timespecsub t u =
    if ltb t.nsec u.nsec
    then record { sec = pos t.sec -ℤ pos u.sec -ℤ pos 1; nsec = t.nsec + one_sec_in_ns - u.nsec }
    else record { sec = pos t.sec -ℤ pos u.sec; nsec = t.nsec - u.nsec }

abbrev pub timer_abstime : ℕ
timer_abstime = 1

-- `now` is the reading of the clock, which the caller passes or the call takes.
unfoldable pub rtapi_clock_nanosleep : ℕ → Timespec → Timespec → Result Sleep
unfolding timespecsub
rtapi_clock_nanosleep flags request now =
    if flags == 0
    then ok (record { sec = pos request.sec; nsec = request.nsec })
    else if flags == timer_abstime
    then ok (timespecsub request now)
    else err einval

sub-total :
    (t u : Timespec)
    → IsNormal t
    → IsNormal u
    → total u ≤ total t
    → (s : Sleep) × (timespecsub t u ≡ s)
      × (s.nsec < one_sec_in_ns)
      × (s.sec ≡ pos (pos_part s.sec))
      × (pos_part s.sec * one_sec_in_ns + s.nsec + total u ≡ total t)
unfolding timespecsub ◌-ℤ◌
sub-total t u nt nu h = (timespecsub t u, refl, ground arith, ground arith, ground arith)

-- A wait that sleeps ends its cycle in time.
abbrev InTime : Timespec → Waited → Type 0
InTime now (sleeps t) = IsNormal t.nextstart × (total now ≤ total t.nextstart)
InTime now _ = Unit

-- The semaphores and the state do not matter.
abbrev IsOn : Task → Type 0
IsOn t = IsTimed t × IsNormal t.nextstart

paced-if :
    (now : Timespec) (t : Task) (b : Bool)
    → rtapi_timespec_less t.nextstart now ≡ b
    → IsNormal now
    → IsNormal t.nextstart
    → InTime now (if b then late t else sleeps t)
paced-if now t true e n m = tt
paced-if now t false e n m = (m, ground (arith, less_iff t.nextstart now m n, e))

paced-InTime : (now : Timespec) (t : Task) → IsNormal now → IsOn t → InTime now (paced now t)
unfolding is_late
paced-InTime now t n o =
    paced-if now (wait_advance t) (rtapi_timespec_less (wait_advance t).nextstart now) refl n
      (wait_advance_period t o.0 o.1).0

begin-IsOn : (t : Task) → IsOn t → IsOn (wait_begin t).0
unfolding wait_begin
begin-IsOn t o = by_token (ltb 0 t.pause_sem)
  where
    by_token :
        (b : Bool)
        → let r : Task × Bool =
            if b then (record t { pause_sem = t.pause_sem - 1 }, true) else (t, false) in
          IsOn r.0
    by_token true = (
      record { small = o.0.small; limited = o.0.limited; above = o.0.above; below = o.0.below },
      o.1,
    )
    by_token false = o

woken-InTime :
    (now : Timespec) (t : Task) → IsNormal now → IsOn t → InTime now (woken now t (wait_wake t))
unfolding wait_wake
woken-InTime now t n o = by_token (ltb 0 t.resume_sem)
  where
    by_token :
        (b : Bool)
        → InTime now (
            woken now t (
              if b
              then some (record t { resume_sem = t.resume_sem - 1; state = running })
              else none))
    by_token true =
        paced-InTime now (record t { resume_sem = t.resume_sem - 1; state = running }) n
          (
            record {
              small = o.0.small;
              limited = o.0.limited;
              above = o.0.above;
              below = o.0.below;
            },
            o.1,
          )
    by_token false = tt

InTime-if :
    (now : Timespec) (b : Bool) (x y : Waited)
    → InTime now x
    → InTime now y
    → InTime now (if b then x else y)
InTime-if now true x y p q = p
InTime-if now false x y p q = q

wait-InTime :
    (c : Bool) (now : Timespec) (t : Task) → IsNormal now → IsOn t → InTime now (posix_wait c now t)
unfolding posix_wait
wait-InTime c now t n o =
    let u = (wait_begin t).0 in
    InTime-if now c cancelled _ tt (
      InTime-if now (wait_begin t).1 (woken now u (wait_wake u)) (paced now u)
        (woken-InTime now u n (begin-IsOn t o)) (paced-InTime now u n (begin-IsOn t o)))

-- If `Posix::wait` of a timed task sleeps after it has read `now`, the sleep that `rtapi_clock_nanosleep`
-- asks the system for has no negative part and less than a second of nanoseconds, and ends exactly at the
-- start of the next cycle.
pub nanosleep-wait :
    (c : Bool) (now : Timespec) (t t' : Task)
    → IsNormal now
    → IsTimed t
    → IsNormal t.nextstart
    → posix_wait c now t ≡ sleeps t'
    → (s : Sleep) × (rtapi_clock_nanosleep timer_abstime t'.nextstart now ≡ ok s)
      × (s.nsec < one_sec_in_ns)
      × (s.sec ≡ pos (pos_part s.sec))
      × (pos_part s.sec * one_sec_in_ns + s.nsec + total now ≡ total t'.nextstart)
unfolding rtapi_clock_nanosleep
nanosleep-wait c now t t' n v m e =
    let w : InTime now (sleeps t') = subst (InTime now) e (wait-InTime c now t n (v, m)) in
    let s = sub-total t'.nextstart now w.0 n w.1 in (s.0, ap ok s.1, s.2, s.3, s.4)
