-- ===== src/Rtapi/Priority/Tests.antt =====
-- rtapi/uspace_rtapi_app.cpp: priorities on small inputs.
use real_time_system.Common.{◌≡◌, refl}
use real_time_system.Common.Int.{pos}
use real_time_system.Rtapi.Priority.{prio_bound}

bound_98 : prio_bound (pos 99) (pos 1) (pos 98) ≡ pos 98
unfolding prio_bound
bound_98 = refl
