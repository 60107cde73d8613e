-- ===== src/Rtapi/Timespec.antt =====
-- rtapi/uspace_rtapi_app.cpp and rtapi/rtapi_uspace.h: times in seconds and nanoseconds. Times come
-- from CLOCK_MONOTONIC, so the seconds are natural numbers.
mod Tests
use real_time_system.Common.{
  ℕ, zero, suc, ◌+◌, ◌-◌, ◌*◌, ◌/◌, ◌^◌, ◌%◌, ◌≤◌, ◌<◌, ◌≡◌, ◌↔◌, Bool, true, false, arith, ltb,
  leb, if◌then◌else◌, refl,
}

pub record Timespec : Type 0 where
  pub sec : ℕ
  pub nsec : ℕ

abbrev pub one_sec_in_ns : ℕ
one_sec_in_ns = 1_000_000_000

abbrev pub IsNormal : Timespec → Type 0
IsNormal t = t.nsec < one_sec_in_ns

-- The time in nanoseconds.
abbrev pub total : Timespec → ℕ
total t = t.sec * one_sec_in_ns + t.nsec

-- One second more, if the nanoseconds reach a second.
abbrev carry : ℕ → ℕ → Timespec
carry sec nsec =
    if leb one_sec_in_ns nsec
    then record { sec = sec + 1; nsec = nsec - one_sec_in_ns }
    else record { sec = sec; nsec = nsec }

pub rtapi_timespec_add : Timespec → Timespec → Timespec
rtapi_timespec_add a b = carry (a.sec + b.sec) (a.nsec + b.nsec)

unfoldable pub rtapi_timespec_less : Timespec → Timespec → Bool
rtapi_timespec_less a b =
    if ltb a.sec b.sec then true else if ltb b.sec a.sec then false else ltb a.nsec b.nsec

-- The `while` of `rtapi_timespec_advance`, on fuel.
whole_seconds : ℕ → ℕ → ℕ → Timespec
whole_seconds zero sec nsec = record { sec = sec; nsec = nsec }
whole_seconds (suc fuel) sec nsec = elim (leb one_sec_in_ns nsec) [
  | true ↦ whole_seconds fuel (sec + 1) (nsec - one_sec_in_ns)
  | false ↦ record { sec = sec; nsec = nsec }
]

-- `nsec` is an unsigned long; the sum wraps.
abbrev add_nsec : Timespec → ℕ → Timespec
add_nsec t nsec = carry t.sec ((t.nsec + nsec) % 2 ^ 64)

unfoldable pub rtapi_timespec_advance : Timespec → ℕ → Timespec
unfolding whole_seconds
rtapi_timespec_advance src nsec =
    add_nsec (whole_seconds (nsec / one_sec_in_ns) src.sec nsec) src.nsec

-- With a round of fuel for each whole second the loop ends by its test.
whole_seconds_lem :
    (fuel sec nsec : ℕ)
    → nsec / one_sec_in_ns ≤ fuel
    → IsNormal (whole_seconds fuel sec nsec)
      × (total (whole_seconds fuel sec nsec) ≡ sec * one_sec_in_ns + nsec)
unfolding whole_seconds
whole_seconds_lem zero sec nsec h = (omega arith, refl)
whole_seconds_lem (suc fuel) sec nsec h =
    ground (arith, whole_seconds_lem fuel (sec + 1) (nsec - one_sec_in_ns))

-- Advancing a normalised time by any number of nanoseconds gives a normalised time that lies
-- exactly so much later; the loop over whole seconds always ends by its test.
pub advance-total :
    (src : Timespec) (nsec : ℕ)
    → IsNormal src
    → IsNormal (rtapi_timespec_advance src nsec)
      × (total (rtapi_timespec_advance src nsec) ≡ total src + nsec)
unfolding rtapi_timespec_advance
advance-total src nsec h = ground (arith, whole_seconds_lem (nsec / one_sec_in_ns) src.sec nsec)

pub add-total :
    (a b : Timespec)
    → IsNormal a
    → IsNormal b
    → IsNormal (rtapi_timespec_add a b) × (total (rtapi_timespec_add a b) ≡ total a + total b)
unfolding rtapi_timespec_add
add-total a b ha hb = ground arith

-- On normalised times the comparison is that of the times in nanoseconds.
pub less_iff :
    (a b : Timespec)
    → IsNormal a
    → IsNormal b
    → (rtapi_timespec_less a b ≡ true) ↔ (total a < total b)
unfolding rtapi_timespec_less
less_iff a b ha hb = ground arith
