-- ===== src/Hal/Tidy/Tests.antt =====
-- hal/hal_lib.c: a row of registrations on a small input.
use real_time_system.Common.{[], ◌∷◌, List}
use real_time_system.Common.Int.{pos}
use real_time_system.Hal.Data.{s32, rw}
use real_time_system.Hal.Functs.{Export}
use real_time_system.Hal.Tidy.Calls.{Call, param_new, pin_newf, export}

abbrev export_g : Export
export_g = record { funct = 4100; arg = 3; uses_fp = 0; reentrant = 1 }

-- The second pin has the name of the first.
abbrev row : List Call
row =
    export (103 ∷ []) export_g 5
    ∷ pin_newf (97 ∷ []) s32 (pos 900) 5
    ∷ pin_newf (97 ∷ []) s32 (pos 904) 5
    ∷ param_new (98 ∷ []) s32 rw (pos 908) 5
    ∷ []
