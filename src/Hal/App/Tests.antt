-- ===== src/Hal/App/Tests.antt =====
-- hal/hal_lib.c: the HAL of a process on small inputs.
use real_time_system.Common.{
  ℕ, zero, suc, ◌≡◌, refl, false, some, none, List, [], ◌∷◌, ok, err, einval, os, returned, failed,
  done, fault, get_elem?, arith, set,
}
use real_time_system.Common.Int.{pos, negsuc, eqb_ℤ, ◌-ℤ◌}
use real_time_system.Common.Codes.{as_int}
use real_time_system.Rtapi.Task.{no_tasks}
use real_time_system.Rtapi.Task.Started.{none_started}
use real_time_system.Rtapi.Shmem.{
  Handle, ShmOs, no_segments, shmem_magic, rtapi_shmem_new, rtapi_shmem_delete, rtapi_shmem_getptr,
  activated, blank,
}
use real_time_system.Rtapi.Shmem.Uuid.{
  Modules, no_modules, rtapi_init, rtapi_exit, is_mapped_at, uuid_key, uuid_size,
}
use real_time_system.Hal.Data.{hal_size}
use real_time_system.Hal.Fixture.{sizes, zero_data, mounted_data}
use real_time_system.Hal.App.{
  Process, Boot, hal_key, hal_app_main, tear_down, hal_app_exit, init_component,
}
use real_time_system.Hal.App.Start.{Starts, app_main-Starts, after_refusal, init-main_refused}
use real_time_system.Hal.App.Teardown.{IsSole, TornDown, app_exit-faults}

-- A system that maps at the address it is given.
abbrev system : ℕ → ShmOs
system at = record {
  getpid = 77;
  shmget = λ _. returned 3;
  shmat = λ _. returned at;
  shmdt = λ _. returned tt;
  nattch = λ _. returned 0;
  rmid = λ _. returned tt;
}

-- One that refuses the segment.
abbrev refusing : ShmOs
refusing = record (system 0) { shmget = λ _. failed 12 }

abbrev boot : Boot
boot = record {
  sizes = sizes;
  pid = 77;
  uuid_os = system 8192;
  memory_os = system 16_384;
  exit_os = system 0;
  uuid_found = record { counter = 0; taken = false };
  found = zero_data;
}

abbrev fresh : Process
fresh = record {
  modules = no_modules no_segments;
  lib_module_id = negsuc 0;
  lib_mem_id = pos 0;
  hal_shmem_base = 0;
  hal = none;
  slots = no_tasks;
}

app_main-Starts_example : Starts boot (hal_app_main boot fresh)
app_main-Starts_example = app_main-Starts boot fresh

-- The HAL of a process whose only handle is that of its memory.
abbrev slot_0 : Handle
slot_0 = activated (system 0) 3 16_384 hal_key hal_size blank

abbrev up : Process
up = record fresh {
  modules = record (no_modules (slot_0 ∷ [])) { uuid_mem_id = pos 1 };
  hal_shmem_base = 16_384;
  hal = some mounted_data;
}

up-IsSole : IsSole up
up-IsSole = record {
  slot = 0;
  handle = slot_0;
  known = refl;
  inside = omega arith;
  here = refl;
  live = refl;
  once = refl;
  only = only_0;
}
  where
    only_0 :
        (j : ℕ) (g : Handle)
        → get_elem? (slot_0 ∷ []) j ≡ some g
        → (g.magic ≡ shmem_magic) × (g.mem ≡ 16_384)
        → j ≡ 0
    only_0 zero g e a = refl
    only_0 (suc j) g e a = cc

app_exit-faults_example :
    TornDown 16_384 (tear_down boot up mounted_data) × (hal_app_exit boot up ≡ fault)
app_exit-faults_example =
    app_exit-faults boot up mounted_data refl refl refl none_started ((omega arith, refl), tt)
      up-IsSole

-- After the first call of rtapi_init
abbrev uuid_slot : Handle
uuid_slot = activated (system 8192) 3 8192 uuid_key uuid_size blank

abbrev first_named : Modules
first_named = record {
  handles = set no_segments 0 uuid_slot;
  uuid_mem_id = pos 0;
  uuid_base = 8192;
  uuid = 1;
  uuid_mutex = false;
}

first_init :
    rtapi_init (system 8192) boot.uuid_found (no_modules no_segments) ≡ done (ok 1, first_named)
unfolding rtapi_init rtapi_shmem_new rtapi_shmem_getptr is_mapped_at
first_init = refl

abbrev refusing_boot : Boot
refusing_boot = record boot { memory_os = refusing }

abbrev refused_slots : List Handle
refused_slots =
    set first_named.handles 1 (record blank { owner_pid = 77; id = negsuc 0; error_code = 12 })

no_segment :
    rtapi_shmem_new refusing hal_key hal_size first_named.handles ≡ (err (os 12), refused_slots)
unfolding rtapi_shmem_new
no_segment = refl

abbrev refused : Process
refused = after_refusal refusing_boot fresh 1 first_named (os 12) refused_slots

abbrev named_again : Modules
named_again = record first_named { handles = set refused_slots 0 uuid_slot }

second_init : rtapi_init (system 8192) boot.uuid_found refused.modules ≡ done (ok 1, named_again)
unfolding rtapi_init rtapi_exit rtapi_shmem_new rtapi_shmem_getptr rtapi_shmem_delete is_mapped_at
second_init = refl

nonzero : eqb_ℤ (as_int (err (os 12))) (pos 0) ≡ false
unfolding ◌-ℤ◌
nonzero = refl

init-main_refused_example :
    (hal_app_main refusing_boot fresh ≡ done (err einval, refused))
    × (init_component boot (system 8192) (some (116 ∷ [])) refused ≡ fault)
init-main_refused_example =
    init-main_refused refusing_boot boot (system 8192) (116 ∷ []) fresh 1 1 first_named named_again
      (os 12) refused_slots first_init no_segment nonzero refl (omega arith) second_init
