-- ===== src/Hal/Stats/Tests.antt =====
-- hal/hal_lib.c: `hal_get_stats` on small inputs.
use real_time_system.Common.{◌≡◌, refl, some, ok, done}
use real_time_system.Hal.Data.{HalData}
use real_time_system.Hal.Pool.{shmalloc_up}
use real_time_system.Hal.Comps.{hal_malloc}
use real_time_system.Hal.Lifecycle.{init_hal_data}
use real_time_system.Hal.Fixture.{sizes, zero_data, active_data}

abbrev used_data : HalData
used_data = record active_data { shmem_bot = 464; shmem_avail = 1_048_112 }

memory_given : hal_malloc 64 active_data ≡ done (some 400, used_data)
unfolding hal_malloc shmalloc_up
memory_given = refl

-- `init_hal_data` leaves `shmem_avail` as the new memory holds it.
unset : (init_hal_data sizes 77 zero_data) ≡ done (ok 0, active_data)
unfolding init_hal_data
unset = refl
