-- ===== src/Rtapi/Task/Cycle.antt =====
-- rtapi/uspace_rtapi_app.cpp: the length of a task's cycle under a correction of its period.
use real_time_system.Common.{ℕ, ◌+◌, ◌/◌, ◌^◌, ◌≤◌, ◌<◌, ◌≡◌, refl, arith}
use real_time_system.Common.Int.{ℤ, pos, ◌+ℤ◌, ◌-ℤ◌, ◌≤ℤ◌}
use real_time_system.Rtapi.Timespec.{IsNormal, total, advance-total}
use real_time_system.Rtapi.Task.{Task, timed}
use real_time_system.Rtapi.Task.Wait.{wait_advance, to_unsigned_long, pll_set_correction}

-- The limits that `task_start` sets, and a period that a long holds.
pub record IsTimed (t : Task) : Type 0 where
  pub small : t.period < 2 ^ 63
  pub limited : t.pll_correction_limit ≡ pos (t.period / 100)
  pub above : pos 0 -ℤ t.pll_correction_limit ≤ℤ t.pll_correction
  pub below : t.pll_correction ≤ℤ t.pll_correction_limit

pub timed-IsTimed : (period : ℕ) (t : Task) → period < 2 ^ 63 → IsTimed (timed period t)
unfolding ◌-ℤ◌
timed-IsTimed period t h = record {
  small = h;
  limited = refl;
  above = ground arith;
  below = omega arith;
}

-- `task_pll_set_correction` keeps the correction within 1% of the period, for any request.
pub pll_set-IsTimed : (value : ℤ) (t : Task) → IsTimed t → IsTimed (pll_set_correction value t)
unfolding pll_set_correction ◌-ℤ◌
pll_set-IsTimed value t v = record {
  small = v.small;
  limited = v.limited;
  above = ground (arith, v.limited);
  below = ground (arith, v.limited);
}

-- In a timed task the start of the next cycle is normalised, and lies after the old one by the
-- period, give or take 1%.
pub wait_advance_period :
    (t : Task)
    → IsTimed t
    → IsNormal t.nextstart
    → IsNormal (wait_advance t).nextstart
      × (total t.nextstart + t.period ≤ total (wait_advance t).nextstart + t.period / 100)
      × (total (wait_advance t).nextstart ≤ total t.nextstart + t.period + t.period / 100)
unfolding wait_advance ◌+ℤ◌ ◌-ℤ◌
wait_advance_period t v n = ground (
  arith,
  advance-total t.nextstart (to_unsigned_long (pos t.period +ℤ t.pll_correction)),
  v.limited,
  v.above,
  v.below,
)
