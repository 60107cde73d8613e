-- ===== src/Hal/Lifecycle/Tests.antt =====
-- hal/hal_lib.c: the life cycle on small inputs.
use real_time_system.Common.{◌≡◌, refl, some, [], ◌∷◌, ok, done}
use real_time_system.Hal.Fixture.{sizes, zero_data, active_data}
use real_time_system.Hal.Lifecycle.{
  init_hal_data, Settled, start, stop, lock, run, init_run-Settled,
}

init_returns : init_hal_data sizes 77 zero_data ≡ done (ok 0, active_data)
unfolding init_hal_data
init_returns = refl

init_run-Settled_example : Settled (run (start ∷ lock 8 ∷ stop ∷ []) (some active_data))
init_run-Settled_example =
    init_run-Settled sizes 77 zero_data active_data (start ∷ lock 8 ∷ stop ∷ []) init_returns
