-- ===== src/Rtapi/Clock.antt =====
-- rtapi/uspace_rtapi_app.cpp: the period of the application (`RtapiApp::clock_set_period`) and the delays
-- (`rtapi_delay`).
use real_time_system.Common.{ℕ, ◌-◌, ◌%◌, ◌^◌, ltb, if◌then◌else◌}
use real_time_system.Common.Int.{ℤ, pos, negsuc, eqb_ℤ, ltb_ℤ}

-- An unsigned long as a long.
abbrev pub to_long : ℕ → ℤ
to_long n = let m = n % 2 ^ 64 in if ltb m (2 ^ 63) then pos m else negsuc (2 ^ 64 - m - 1)

-- -EINVAL, which a long can be as well
abbrev pub minus_einval : ℤ
minus_einval = negsuc 21

-- What the call returns, and the period.
unfoldable pub clock_set_period : ℤ → ℤ → ℤ × ℤ
clock_set_period nsecs period =
    if eqb_ℤ nsecs (pos 0)
    then (period, period)
    else if eqb_ℤ period (pos 0)
    then (nsecs, nsecs)
    else (minus_einval, period)

abbrev pub rtapi_delay_max : ℤ
rtapi_delay_max = pos 10_000

-- The length of the sleep that a delay asks the system for.
unfoldable pub rtapi_delay : ℤ → ℤ
rtapi_delay ns = if ltb_ℤ rtapi_delay_max ns then rtapi_delay_max else ns
