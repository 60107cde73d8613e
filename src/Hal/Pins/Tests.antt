-- ===== src/Hal/Pins/Tests.antt =====
-- hal/hal_lib.c: `hal_pin_new` on a small input.
use real_time_system.Common.{some, [], ◌∷◌}
use real_time_system.Common.Int.{pos}
use real_time_system.Hal.Data.{s32}
use real_time_system.Hal.Fixture.{sizes, mounted_data}
use real_time_system.Hal.Registry.{stored}
use real_time_system.Hal.Pins.{hal_pin_new}
use real_time_system.Hal.Pins.Pointer.{Ends, pin_new-Leads}

pin_new-Leads_example :
    Ends sizes
      (stored (97 ∷ []))
      (pos 900)
      5
      (hal_pin_new sizes (97 ∷ []) s32 (some (pos 900)) 5 (some mounted_data))
pin_new-Leads_example = pin_new-Leads sizes (97 ∷ []) s32 (pos 900) 5 mounted_data
