-- ===== src/Rtapi/Timespec/Tests.antt =====
-- rtapi/uspace_rtapi_app.cpp: times on small inputs.
use real_time_system.Common.{◌≡◌, refl}
use real_time_system.Rtapi.Timespec.{Timespec, rtapi_timespec_advance}

-- 1.9 s
abbrev early : Timespec
early = record { sec = 1; nsec = 900_000_000 }

abbrev late : Timespec
late = record { sec = 4; nsec = 200_000_000 }

advanced : rtapi_timespec_advance early 2_300_000_000 ≡ late
unfolding rtapi_timespec_advance
advanced = refl
