-- ===== src/Hal/Functs/Tests.antt =====
-- hal/hal_lib.c: the export of a function on a small input.
use real_time_system.Common.{
  ℕ, ◌≡◌, Option, some, refl, replicate, arith, Result, ok, err, einval, Outcome, done,
}
use real_time_system.Common.Names.{Name}
use real_time_system.Hal.Data.{HalData, Funct}
use real_time_system.Hal.Pool.{shmalloc_dn}
use real_time_system.Hal.Sorted.{insert_sorted, find_by_name}
use real_time_system.Hal.Structs.{alloc_funct_struct}
use real_time_system.Hal.Comps.{find_comp_by_id}
use real_time_system.Hal.Functs.Failing.{export_too_long}
use real_time_system.Hal.Fixture.{sizes, mounted_data}
use real_time_system.Hal.Registry.{stored}
use real_time_system.Hal.Functs.{Export, export_funct, hal_export_funct}
use real_time_system.Hal.Functs.Order.{name_of}

abbrev export_g : Export
export_g = record { funct = 4100; arg = 3; uses_fp = 0; reentrant = 1 }

-- A name of 43 bytes.
abbrev long : Name
long = replicate 43 120

abbrev data_of : Outcome (Result ℕ × Option HalData) → HalData
data_of (done (r, some d)) = d
data_of _ = mounted_data

abbrev exported_data : HalData
unfolding export_funct find_comp_by_id alloc_funct_struct shmalloc_dn insert_sorted
exported_data = data_of (export_funct sizes long export_g 5 (some mounted_data))

export_long :
    export_funct sizes long export_g 5 (some mounted_data) ≡ done (ok 1_048_448, some exported_data)
unfolding export_funct find_comp_by_id alloc_funct_struct shmalloc_dn insert_sorted
export_long = refl

export_too_long_example :
    (hal_export_funct sizes long export_g 5 (some mounted_data)
      ≡ done (err einval, some exported_data))
    × (f : Funct) × (find_by_name name_of (stored long) exported_data.funct_list ≡ some f)
    × (f.funct ≡ 4100)
    × (f.arg ≡ 3)
export_too_long_example =
    export_too_long sizes long export_g 5 mounted_data exported_data 1_048_448 refl (tt, tt)
      (omega arith) export_long
