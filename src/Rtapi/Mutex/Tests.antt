-- ===== src/Rtapi/Mutex/Tests.antt =====
-- rtapi/rtapi_mutex.h: two steps of two threads.
use native.Mathlib.Decide.{ℕ_discrete}
use real_time_system.Common.{ℕ, ◌≡◌, refl}
use real_time_system.Rtapi.Mutex.{rtapi_mutex_try}
use real_time_system.Rtapi.Mutex.Threads.{
  inside, Reach, here, next, call_try, start, mutual_exclusion, moved,
}

-- Thread 2 has tried and got the mutex.
reached : Reach (moved start 2 (1, inside))
unfolding rtapi_mutex_try
reached = next here (call_try 2 refl)

mutual_exclusion_example : ◌≡◌ {A = ℕ} 2 2
unfolding ℕ_discrete
mutual_exclusion_example = mutual_exclusion reached 2 2 refl refl
