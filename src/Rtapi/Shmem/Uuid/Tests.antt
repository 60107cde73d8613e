-- ===== src/Rtapi/Shmem/Uuid/Tests.antt =====
-- rtapi/uspace_common.c: `rtapi_init` and `rtapi_exit` on small inputs.
use real_time_system.Common.{
  ◌≡◌, refl, some, List, [], ◌∷◌, ok, returned, arith, get_elem?, false, done, fault, ℕ,
}
use real_time_system.Common.Int.{pos}
use real_time_system.Rtapi.Shmem.{Handle, ShmOs, no_segments, shmem_magic, active, rtapi_shmem_new}
use real_time_system.Rtapi.Shmem.Table.{opens, run, step, run-IsValid}
use real_time_system.Rtapi.Shmem.Uuid.{
  Modules, Found, no_modules, uuid_key, uuid_size, rtapi_init, rtapi_exit,
}
use real_time_system.Rtapi.Shmem.Uuid.Ids.{IsUp, inits, ids_after, inits-count}

-- A system that maps at the address it is given.
abbrev system : ℕ → ShmOs
system at = record {
  getpid = 77;
  shmget = λ _. returned 3;
  shmat = λ _. returned at;
  shmdt = λ _. returned tt;
  nattch = λ _. returned 0;
  rmid = λ _. returned tt;
}

abbrev zeroed : Found
zeroed = record { counter = 0; taken = false }

abbrev opened : List Handle
opened = run no_segments (opens (system 8192) uuid_key uuid_size ∷ [])

abbrev slot_0 : Handle
slot_0 = record {
  magic = shmem_magic;
  key = uuid_key;
  id = pos 3;
  count = 1;
  size = uuid_size;
  mem = 8192;
  state = active;
  owner_pid = 77;
  error_code = 0;
}

opened_0 : get_elem? opened 0 ≡ some slot_0
unfolding run rtapi_shmem_new step
opened_0 = refl

-- After one call in a fresh process.
abbrev up : Modules
up = record {
  handles = opened;
  uuid_mem_id = pos 0;
  uuid_base = 8192;
  uuid = 1;
  uuid_mutex = false;
}

first_init : rtapi_init (system 8192) zeroed (no_modules no_segments) ≡ done (ok 1, up)
unfolding rtapi_init run rtapi_shmem_new step
first_init = refl

up-IsUp : IsUp 0 up
up-IsUp = record {
  slot = slot_0;
  valid = run-IsValid (opens (system 8192) uuid_key uuid_size ∷ []);
  here = opened_0;
  live = refl;
  keyed = refl;
  based = refl;
  mapped = omega arith;
  free = refl;
  known = refl;
}

inits-count_example :
    (m' : Modules) × (inits ((system 8192, zeroed) ∷ (system 8192, zeroed) ∷ []) up
      ≡ done (ids_after 1 ((system 8192, zeroed) ∷ (system 8192, zeroed) ∷ []), m'))
    × IsUp 0 m'
inits-count_example = inits-count ((system 8192, zeroed) ∷ (system 8192, zeroed) ∷ []) 0 up up-IsUp

-- After the last exit the segment is unmapped, but its address is kept: where the system maps the next
-- segment elsewhere, the next call reads unmapped memory.
stale_base : rtapi_init (system 12_288) zeroed (rtapi_exit (system 8192) (pos 1) up).1 ≡ fault
unfolding rtapi_init rtapi_exit run rtapi_shmem_new step
stale_base = refl
