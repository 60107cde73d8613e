-- ===== src/Rtapi/Priority.antt =====
-- rtapi/uspace_rtapi_app.cpp: the priorities of a scheduling policy, whose ends the system gives.
mod Tests
use real_time_system.Common.{◌≡◌, ◌≢◌, ◌⊎◌, arith, if◌then◌else◌}
use real_time_system.Common.Int.{ℤ, pos, negsuc, ◌+ℤ◌, ◌-ℤ◌, ◌≤ℤ◌, ltb_ℤ, eqb_ℤ, leb_ℤ, eq_of_parts}

-- `highest` and `lowest` are sched_get_priority_max and sched_get_priority_min of the policy. A
-- policy may count down, so `lowest` may be the larger number.
module _ (highest lowest : ℤ) where
  pub prio_higher_delta : ℤ
  prio_higher_delta = if ltb_ℤ lowest highest then pos 1 else negsuc 0

  pub prio_bound : ℤ → ℤ
  prio_bound prio =
      if ltb_ℤ lowest highest
      then (if leb_ℤ highest prio then highest else if ltb_ℤ prio lowest then lowest else prio)
      else (if leb_ℤ prio highest then highest else if ltb_ℤ lowest prio then lowest else prio)

  one_higher : ℤ → ℤ
  unfolding prio_higher_delta ◌+ℤ◌
  one_higher prio = if eqb_ℤ prio highest then prio else prio +ℤ prio_higher_delta

  one_lower : ℤ → ℤ
  unfolding prio_higher_delta ◌-ℤ◌
  one_lower prio = if eqb_ℤ prio lowest then prio else prio -ℤ prio_higher_delta

  pub prio_next_higher : ℤ → ℤ
  unfolding one_higher prio_bound
  prio_next_higher prio = one_higher (prio_bound prio)

  pub prio_next_lower : ℤ → ℤ
  unfolding one_lower prio_bound
  prio_next_lower prio = one_lower (prio_bound prio)

  -- Between the two ends, whichever is the larger.
  abbrev pub InRange : ℤ → Type 0
  InRange p = ((lowest ≤ℤ p) × (p ≤ℤ highest)) ⊎ ((highest ≤ℤ p) × (p ≤ℤ lowest))

  pub prio_bound-InRange : (p : ℤ) → InRange (prio_bound p)
  unfolding prio_bound
  prio_bound-InRange p = ground arith

  pub prio_bound_fixed : (p : ℤ) → InRange p → prio_bound p ≡ p
  unfolding prio_bound
  prio_bound_fixed p h = ground (arith, eq_of_parts highest p, eq_of_parts lowest p)

  one_higher-InRange : (p : ℤ) → InRange p → InRange (one_higher p)
  unfolding one_higher
  one_higher-InRange p h = ground arith

  one_lower-InRange : (p : ℤ) → InRange p → InRange (one_lower p)
  unfolding one_lower
  one_lower-InRange p h = ground arith

  one_lower-one_higher : (p : ℤ) → InRange p → p ≢ highest → one_lower (one_higher p) ≡ p
  unfolding one_higher one_lower
  one_lower-one_higher p h ne = ground (arith, eq_of_parts p highest)

  -- The next higher and the next lower priority lie between the ends of the policy, for any input.
  pub next-InRange : (p : ℤ) → InRange (prio_next_higher p) × InRange (prio_next_lower p)
  unfolding prio_next_higher prio_next_lower
  next-InRange p = (
    one_higher-InRange (prio_bound p) (prio_bound-InRange p),
    one_lower-InRange (prio_bound p) (prio_bound-InRange p),
  )

  -- Below the highest priority, one step up and one step down give the bounded priority again.
  pub next_lower-next_higher :
      (p : ℤ) → prio_bound p ≢ highest → prio_next_lower (prio_next_higher p) ≡ prio_bound p
  unfolding prio_next_higher prio_next_lower
  next_lower-next_higher p ne =
      rw
        (prio_bound_fixed (one_higher (prio_bound p))
          (one_higher-InRange (prio_bound p) (prio_bound-InRange p)))
        (one_lower-one_higher (prio_bound p) (prio_bound-InRange p) ne)
