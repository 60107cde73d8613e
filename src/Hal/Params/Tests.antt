-- ===== src/Hal/Params/Tests.antt =====
-- hal/hal_lib.c: `hal_param_new` on a small input.
use real_time_system.Common.{some, [], ◌∷◌, refl}
use real_time_system.Common.Int.{pos}
use real_time_system.Hal.Data.{s32, rw}
use real_time_system.Hal.Fixture.{sizes, mounted_data}
use real_time_system.Hal.Registry.{Kept, stored}
use real_time_system.Hal.Params.{hal_param_new}
use real_time_system.Hal.Params.Order.{name_of, list_of, IsAsked, param_new-Kept}

param_new-Kept_example :
    Kept name_of list_of
      (λ _ _. refl)
      (stored (97 ∷ []))
      (IsAsked s32 rw (pos 900))
      mounted_data
      (hal_param_new sizes (97 ∷ []) s32 rw (pos 900) 5 (some mounted_data))
param_new-Kept_example = param_new-Kept sizes (97 ∷ []) s32 rw (pos 900) 5 mounted_data refl tt
