-- ===== src/Rtapi/Shmem/Uuid.antt =====
-- rtapi/uspace_common.c: `rtapi_init` and `rtapi_exit`. The ids of modules come from a counter in a
-- shared memory segment of its own.
pub mod Ids
pub mod Mapped
mod Tests
use real_time_system.Common.{
  ℕ, zero, suc, ◌+◌, Bool, true, false, ◌&&◌, ◌||◌, List, [], ◌∷◌, ◌==◌, if◌then◌else◌, get_elem?,
  Option, none, some, einval, Result, ok, err, Outcome, done, hang, fault,
}
use real_time_system.Common.Int.{ℤ, pos}
use real_time_system.Common.Codes.{as_int}
use real_time_system.Rtapi.Shmem.{
  Handle, ShmOs, shmem_magic, rtapi_shmem_new, rtapi_shmem_getptr, rtapi_shmem_delete,
}

abbrev pub uuid_key : ℕ
uuid_key = 0x48484c34

-- sizeof(uuid_data_t)
abbrev pub uuid_size : ℕ
uuid_size = 16

-- The handles, the static variables of the file, and the segment that is mapped at `uuid_base`: its
-- counter and its mutex. The address 0 is NULL.
pub record Modules : Type 0 where
  pub handles : List Handle
  pub uuid_mem_id : ℤ
  pub uuid_base : ℕ
  pub uuid : ℕ
  pub uuid_mutex : Bool

-- What is zero in the beginning.
abbrev pub no_modules : List Handle → Modules
no_modules handles = record {
  handles = handles;
  uuid_mem_id = pos 0;
  uuid_base = 0;
  uuid = 0;
  uuid_mutex = false;
}

-- A segment is mapped at the address.
unfoldable pub is_mapped_at : ℕ → List Handle → Bool
is_mapped_at base [] = false
is_mapped_at base (h ∷ hs) = h.magic == shmem_magic && h.mem == base || is_mapped_at base hs

-- The counter that a process meets in a segment which it maps for the first time, and its mutex.
pub record Found : Type 0 where
  pub counter : ℕ
  pub taken : Bool

unfoldable pub rtapi_exit : ShmOs → ℤ → Modules → Result ℕ × Modules
unfolding rtapi_shmem_delete
rtapi_exit sys module_id m =
    (ok 0, record m { handles = (rtapi_shmem_delete sys m.handles m.uuid_mem_id).1 })

abbrev failed_init : ShmOs → Modules → Outcome (Result ℕ × Modules)
failed_init sys m = done (err einval, (rtapi_exit sys (pos 0) m).1)

abbrev counted : Modules → Outcome (Result ℕ × Modules)
counted m =
    if is_mapped_at m.uuid_base m.handles
    then if m.uuid_mutex then hang else done (ok (m.uuid + 1), record m { uuid = m.uuid + 1 })
    else fault

-- Whether the handle was opened just now.
abbrev pub is_first : Option Handle → Bool
is_first none = false
is_first (some h) = h.count == 1

abbrev met : Found → Modules → Modules
met f m = record m { uuid = f.counter; uuid_mutex = f.taken }

-- The address is kept the first time only. A segment that is mapped at it now brings its own counter.
abbrev with_base : Found → Bool → ℕ → Modules → Modules
with_base f first mem m =
    if m.uuid_base == 0
    then met f (record m { uuid_base = mem })
    else if first && m.uuid_base == mem
    then met f m
    else m

abbrev after_getptr : ShmOs → Found → Bool → Modules → Result ℕ → Outcome (Result ℕ × Modules)
after_getptr sys f first m (err e) = failed_init sys m
after_getptr sys f first m (ok mem) = counted (with_base f first mem m)

abbrev after_new : ShmOs → Found → Modules → Result ℕ × List Handle → Outcome (Result ℕ × Modules)
after_new sys f m (err e, hs) =
    failed_init sys (record m { handles = hs; uuid_mem_id = as_int (err e) })
after_new sys f m (ok n, hs) =
    after_getptr sys f (is_first (get_elem? hs n)) (record m { handles = hs; uuid_mem_id = pos n })
      (rtapi_shmem_getptr hs (pos n))

-- The name of the module is not used.
unfoldable pub rtapi_init : ShmOs → Found → Modules → Outcome (Result ℕ × Modules)
unfolding rtapi_shmem_new rtapi_shmem_getptr is_mapped_at rtapi_exit
rtapi_init sys f m = after_new sys f m (rtapi_shmem_new sys uuid_key uuid_size m.handles)
