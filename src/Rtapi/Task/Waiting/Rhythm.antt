-- ===== src/Rtapi/Task/Waiting/Rhythm.antt =====
-- The rhythm of a thread over many cycles, and when a wait blocks.
use real_time_system.Common.{
  ℕ, suc, ◌+◌, ◌*◌, ◌/◌, ◌≤◌, ◌<◌, ◌≡◌, ◌↔◌, refl, false, Option, none, some, List, [], ◌∷◌, length,
  arith, ap, sym, ◌∙◌,
}
use real_time_system.Rtapi.Timespec.{Timespec, IsNormal, total}
use real_time_system.Rtapi.Task.{Task}
use real_time_system.Rtapi.Task.Wait.{wait_begin, wait_wake, begun, wait_advance, is_late}
use real_time_system.Rtapi.Task.Cycle.{IsTimed, wait_advance_period}
use real_time_system.Rtapi.Task.Waiting.{
  Waited, cancelled, blocked, late, sleeps, posix_wait, task_pll_get_reference,
}

-- The task with which the thread goes on to its next cycle.
abbrev pub goes_on : Waited → Option Task
goes_on cancelled = none
goes_on (blocked t) = none
goes_on (late t) = some t
goes_on (sleeps t) = some t

-- A thread that is not cancelled does not go on exactly if a pause was asked for and no resume.
pub wait-none_iff :
    (now : Timespec) (t : Task)
    → (goes_on (posix_wait false now t) ≡ none) ↔ ((0 < t.pause_sem) × (t.resume_sem ≡ 0))
unfolding posix_wait wait_begin wait_wake
wait-none_iff now t = (λ e. ground arith, λ h. ground (arith, h))

-- One wait after another, at the readings of the clock.
pub waits : List Timespec → Option Task → Option Task
waits [] o = o
waits (now ∷ ns) none = none
waits (now ∷ ns) (some t) = waits ns (goes_on (posix_wait false now t))

unpaused :
    (now : Timespec) (t : Task)
    → t.pause_sem ≡ 0
    → goes_on (posix_wait false now t) ≡ some (wait_advance t)
unfolding posix_wait wait_begin is_late wait_advance
unpaused now t h = ground (arith, h)

advance_keeps :
    (t : Task)
    → let t' = wait_advance t in
      (t'.period ≡ t.period) × (t'.pause_sem ≡ t.pause_sem) × (IsTimed t → IsTimed t')
unfolding wait_advance
advance_keeps t = (
  refl,
  refl,
  λ v. record { small = v.small; limited = v.limited; above = v.above; below = v.below },
)

suc_mul : (n p : ℕ) → suc n * p ≡ p + n * p
suc_mul n p = grind arith

-- One more cycle after the bounds for the first and those for the others.
further_below :
    (n p d s m e : ℕ) → s + p ≤ m + d → m + n * p ≤ e + n * d → s + suc n * p ≤ e + suc n * d
further_below n p d s m e h l = let x = suc_mul n p in let y = suc_mul n d in omega arith

further_above :
    (n p d s m e : ℕ) → m ≤ s + p + d → e ≤ m + n * p + n * d → e ≤ s + suc n * p + suc n * d
further_above n p d s m e h l = let x = suc_mul n p in let y = suc_mul n d in omega arith

-- Without a request to pause, a timed thread goes on after any number of waits, and its phase, which
-- `rtapi_task_pll_get_reference` reads, has advanced by one period for each wait, give or take 1% of the
-- period for each: lateness of the thread does not add up.
pub waits-reference :
    (ns : List Timespec) (t : Task)
    → IsTimed t
    → IsNormal t.nextstart
    → t.pause_sem ≡ 0
    → (t' : Task) × (waits ns (some t) ≡ some t')
      × (total t.nextstart + length ns * t.period
          ≤ task_pll_get_reference (some t') + length ns * (t.period / 100))
      × (task_pll_get_reference (some t')
          ≤ total t.nextstart + length ns * t.period + length ns * (t.period / 100))
unfolding waits task_pll_get_reference wait_advance
waits-reference [] t v n h = (t, refl, omega arith, omega arith)
waits-reference (now ∷ ns) t v n h =
    let k = advance_keeps t in
    let a = wait_advance_period t v n in
    let ih = waits-reference ns (wait_advance t) (k.2 v) a.0 (k.1 ∙ h) in
    (
      ih.0,
      ap (waits ns) (unpaused now t h) ∙ ih.1,
      further_below (length ns) t.period (t.period / 100) (total t.nextstart)
          (total (wait_advance t).nextstart) (total ih.0.nextstart) a.1 ih.2,
      further_above (length ns) t.period (t.period / 100) (total t.nextstart)
          (total (wait_advance t).nextstart) (total ih.0.nextstart) a.2 ih.3,
    )

-- A new thread under `Posix::wrapper` at the reading `now` of the clock that then waits any number of
-- times, without a request to pause: it goes on, and its phase, which `rtapi_task_pll_get_reference` reads,
-- is `now` and one period for the start and for each wait, give or take 1% of the period for each, so that
-- lateness does not add up.
pub begun-reference :
    (now : Timespec) (ns : List Timespec) (t : Task)
    → IsTimed t
    → IsNormal now
    → t.pause_sem ≡ 0
    → (t' : Task) × (waits ns (some (begun now t)) ≡ some t')
      × (total now + suc (length ns) * t.period
          ≤ task_pll_get_reference (some t') + suc (length ns) * (t.period / 100))
      × (task_pll_get_reference (some t')
          ≤ total now + suc (length ns) * t.period + suc (length ns) * (t.period / 100))
unfolding waits begun wait_advance
begun-reference now ns t v n h =
    let u = record t { nextstart = now } in
    let r =
      waits-reference (now ∷ ns) u
        (record { small = v.small; limited = v.limited; above = v.above; below = v.below }) n h in
    (r.0, ap (waits ns) (sym (unpaused now u h)) ∙ r.1, r.2, r.3)
