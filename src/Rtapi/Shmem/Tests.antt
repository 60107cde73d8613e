-- ===== src/Rtapi/Shmem/Tests.antt =====
-- rtapi/uspace_common.c: shared memory on small inputs.
use real_time_system.Common.{◌≡◌, refl, some, List, [], ◌∷◌, ok, err, einval, returned, get_elem?}
use real_time_system.Common.Int.{pos}
use real_time_system.Rtapi.Shmem.{
  Handle, ShmOs, no_segments, rtapi_shmem_new, rtapi_shmem_delete, rtapi_shmem_getptr, shmem_magic,
  active,
}
use real_time_system.Rtapi.Shmem.Table.{IsValid, opens, deletes, step, run, run-IsValid}
use real_time_system.Rtapi.Shmem.Contract.{delete_last}

-- A system that grants everything.
abbrev sys : ShmOs
sys = record {
  getpid = 77;
  shmget = λ _. returned 3;
  shmat = λ _. returned 8192;
  shmdt = λ _. returned tt;
  nattch = λ _. returned 0;
  rmid = λ _. returned tt;
}

run-IsValid_example : IsValid (run no_segments (opens sys 7 4096 ∷ deletes sys (pos 0) ∷ []))
run-IsValid_example = run-IsValid (opens sys 7 4096 ∷ deletes sys (pos 0) ∷ [])

abbrev opened : List Handle
opened = run no_segments (opens sys 7 4096 ∷ [])

empty-IsValid : IsValid (run no_segments [])
empty-IsValid = run-IsValid []

empty_table : run no_segments [] ≡ no_segments
unfolding run
empty_table = refl

new_returns : (rtapi_shmem_new sys 7 4096 (run no_segments [])).0 ≡ ok 0
unfolding run rtapi_shmem_new
new_returns = refl

opened-IsValid : IsValid opened
opened-IsValid = run-IsValid (opens sys 7 4096 ∷ [])

abbrev slot_0 : Handle
slot_0 = record {
  magic = shmem_magic;
  key = 7;
  id = pos 3;
  count = 1;
  size = 4096;
  mem = 8192;
  state = active;
  owner_pid = 77;
  error_code = 0;
}

opened_0 : get_elem? opened 0 ≡ some slot_0
unfolding run step rtapi_shmem_new
opened_0 = refl

delete_last_example :
    (rtapi_shmem_getptr (rtapi_shmem_delete sys opened (pos 0)).1 (pos 0) ≡ err einval)
    × (rtapi_shmem_delete sys (rtapi_shmem_delete sys opened (pos 0)).1 (pos 0)
        ≡ (err einval, (rtapi_shmem_delete sys opened (pos 0)).1))
delete_last_example = delete_last sys sys 0 opened slot_0 opened-IsValid opened_0 refl refl
