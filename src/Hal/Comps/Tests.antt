-- ===== src/Hal/Comps/Tests.antt =====
-- hal/hal_lib.c: components on small inputs.
use real_time_system.Common.{◌≡◌, ◌≢◌, refl, some, [], ◌∷◌, ok, err, einval, done, arith}
use real_time_system.Hal.Data.{HalData, Comp}
use real_time_system.Hal.Fixture.{sizes, active_data, mounted_data, comp_5}
use real_time_system.Hal.Comps.{hal_init, hal_exit, find_comp_by_id}
use real_time_system.Hal.Comps.Names.{exit-init, second-init}
use real_time_system.Hal.Pool.{shmalloc_dn}
use real_time_system.Hal.Sorted.{find_by_name}
use real_time_system.Hal.Structs.{halpr_alloc_comp_struct}

found_5 : find_comp_by_id 5 mounted_data.comp_list ≡ some comp_5
unfolding find_comp_by_id
found_5 = refl

-- The data after `hal_init` of the component "a" with id 7.
abbrev first_comp : Comp
first_comp = record comp_5 { off = 1048448; comp_id = 7; shmem_base = 4096 }

abbrev after_init : HalData
after_init = record active_data {
  comp_list = first_comp ∷ [];
  shmem_top = 1048448;
  shmem_avail = 1048048;
}

init_returns : hal_init sizes 4096 (some (97 ∷ [])) (ok 7) active_data ≡ done (ok 7, after_init)
unfolding hal_init halpr_alloc_comp_struct shmalloc_dn find_by_name
init_returns = refl

exit-init_example :
    (d'' : HalData) × (hal_exit 7 (some after_init) ≡ done (ok 0, some d'')) × (d''.comp_list ≡ [])
exit-init_example =
    exit-init sizes 4096 (some (97 ∷ [])) (ok 7) active_data after_init 7 init_returns refl

second-init_example :
    hal_init sizes 4096 (some (97 ∷ [])) (ok 8) after_init ≢ done (err einval, after_init)
second-init_example =
    second-init sizes 4096 (97 ∷ []) (ok 7) active_data after_init after_init 7 8 (λ e. cc)
      (omega arith) tt init_returns
