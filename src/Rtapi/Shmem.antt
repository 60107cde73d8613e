-- ===== src/Rtapi/Shmem.antt =====
-- rtapi/uspace_common.c and uspace_common.h: System V shared memory behind handles that count
-- their references.
mod Tests
pub mod Walk
pub mod Table
pub mod Contract
pub mod Uuid
use real_time_system.Common.{
  ℕ, zero, suc, ◌+◌, ◌-◌, ◌≤◌, ◌<◌, ◌≡◌, Bool, true, false, ◌||◌, Option, none, some, List, [], ◌∷◌,
  ltb, leb, ◌==◌, if◌then◌else◌, get_elem?, modify, replicate, Errno, einval, enomem, eacces, os,
  Result, ok, err, OsResult, returned, failed,
}
use real_time_system.Common.Int.{ℤ, pos, negsuc}

-- The `SHMEM_S_*` constants.
pub data ShmemState : Type 0 where
  unborn created attached active detached destroyed error : ShmemState

-- `rtapi_shmem_handle`; the address 0 of `mem` is NULL.
pub record Handle : Type 0 where
  pub magic : ℕ
  pub key : ℕ
  pub id : ℤ
  pub count : ℕ
  pub size : ℕ
  pub mem : ℕ
  pub state : ShmemState
  pub owner_pid : ℕ
  pub error_code : ℕ

abbrev pub max_shm : ℕ
max_shm = 64

abbrev pub shmem_magic : ℕ
shmem_magic = 25453

abbrev pub eperm_value : ℕ
eperm_value = 1

-- A slot in zeroed static storage.
abbrev pub blank : Handle
blank = record {
  magic = 0;
  key = 0;
  id = pos 0;
  count = 0;
  size = 0;
  mem = 0;
  state = unborn;
  owner_pid = 0;
  error_code = 0;
}

-- What the operating system answers during one call.
pub record ShmOs : Type 0 where
  pub getpid : ℕ
  pub shmget : ℕ → OsResult ℕ  -- by the retries that are left
  pub shmat : ℕ → OsResult ℕ
  pub shmdt : ℕ → OsResult (Unit {0})
  pub nattch : ℤ → OsResult ℕ  -- `shm_nattch` after IPC_STAT
  pub rmid : ℤ → OsResult (Unit {0})

-- Where the walk over the array ends.
pub data Found : Type 0 where
  mapped : ℕ → Found
  free_slot : ℕ → Found
  full : Found

abbrev note_free : Option ℕ → ℕ → Option ℕ
note_free none i = some i
note_free (some j) i = some j

abbrev end_of_walk : Option ℕ → Found
end_of_walk none = full
end_of_walk (some j) = free_slot j

pub find_slot : ℕ → ℕ → Option ℕ → List Handle → Found
find_slot key i free [] = end_of_walk free
find_slot key i free (h ∷ hs) = elim (h.magic == shmem_magic) [
  | true ↦ elim (h.key == key) [ true ↦ mapped i | false ↦ find_slot key (i + 1) free hs ]
  | false ↦ find_slot key (i + 1) (note_free free i) hs
]

-- Tries once more while a retry is left and the error is EPERM.
pub shmget_again : ShmOs → ℕ → OsResult ℕ
shmget_again sys zero = sys.shmget zero
shmget_again sys (suc retries) = elim (sys.shmget (suc retries)) [
  | returned id ↦ returned id
  | failed e ↦ elim (e == eperm_value) [ true ↦ shmget_again sys retries | false ↦ failed e ]
]

abbrev claimed : ShmOs → Handle → Handle
claimed sys h = record h { owner_pid = sys.getpid; error_code = 0 }

abbrev not_created : ShmOs → ℕ → Handle → Handle
not_created sys e h = record (claimed sys h) { id = negsuc 0; error_code = e }

abbrev not_attached : ShmOs → ℕ → Handle → Handle
not_attached sys e h = record (claimed sys h) {
  id = negsuc 0;
  mem = 0;
  state = error;
  error_code = e;
}

abbrev pub activated : ShmOs → (id mem key size : ℕ) → Handle → Handle
activated sys id mem key size h = record (claimed sys h) {
  magic = shmem_magic;
  key = key;
  id = pos id;
  count = 1;
  size = size;
  mem = mem;
  state = active;
}

attach : ShmOs → (slot id key size : ℕ) → List Handle → Result ℕ × List Handle
attach sys slot id key size array = elim (sys.shmat id) [
  | failed e ↦ (err (os e), modify array slot (not_attached sys e))
  | returned mem ↦ (ok slot, modify array slot (activated sys id mem key size))
]

create : ShmOs → (slot key size : ℕ) → List Handle → Result ℕ × List Handle
unfolding attach shmget_again
create sys slot key size array = elim (shmget_again sys 5) [
  | failed e ↦ (err (os e), modify array slot (not_created sys e))
  | returned id ↦ attach sys slot id key size array
]

abbrev share : Handle → Handle
share h = record h { count = h.count + 1 }

-- The IPC_SET of the owner and the reads that touch each page change no handle.
open_slot : ShmOs → (key size : ℕ) → List Handle → Found → Result ℕ × List Handle
unfolding create
open_slot sys key size array (mapped i) = (ok i, modify array i share)
open_slot sys key size array full = (err enomem, array)
open_slot sys key size array (free_slot i) = create sys i key size array

unfoldable pub rtapi_shmem_new : ShmOs → (key size : ℕ) → List Handle → Result ℕ × List Handle
unfolding find_slot open_slot
rtapi_shmem_new sys key size array =
    if key == 0
    then (err einval, array)
    else if size == 0
    then (err einval, array)
    else open_slot sys key size array (find_slot key 0 none array)

-- The slot of a handle in range; a negative handle is never in range.
abbrev pub slot_of : ℤ → Option ℕ
slot_of (negsuc n) = none
slot_of (pos n) = if leb max_shm n then none else some n

abbrev pub checked : List Handle → ℤ → Option Handle
checked array handle = elim (slot_of handle) [ none ↦ none | some n ↦ get_elem? array n ]

abbrev pub is_mapped : ShmemState → Bool
is_mapped active = true
is_mapped attached = true
is_mapped _ = false

unfoldable pub rtapi_shmem_getptr : List Handle → ℤ → Result ℕ
rtapi_shmem_getptr array handle = elim (checked array handle) [
  | none ↦ err einval
  | some h ↦
      if h.magic == shmem_magic
      then if is_mapped h.state then ok h.mem else err eacces
      else err einval
]

pub rtapi_shmem_getstate : List Handle → ℤ → ShmemState
rtapi_shmem_getstate array handle = elim (checked array handle) [
  | none ↦ error
  | some h ↦ if h.magic == shmem_magic then h.state else error
]

-- With the handle comes whether a system call failed.
abbrev detach : ShmOs → Handle → Handle × Bool
detach sys h =
    if is_mapped h.state
    then elim (sys.shmdt h.mem) [
      | returned _ ↦ (record h { state = detached; mem = 0 }, false)
      | failed e ↦ (record h { state = detached; mem = 0; error_code = e }, true)
    ]
    else (h, false)

abbrev destroy : ShmOs → Handle → Handle × Bool
destroy sys h = elim (sys.nattch h.id) [
  | failed e ↦ (record h { error_code = e }, true)
  | returned n ↦
      if n == 0
      then elim (sys.rmid h.id) [
        | returned _ ↦ (record h { state = destroyed }, false)
        | failed e ↦ (record h { error_code = e; state = destroyed }, true)
      ]
      else (h, false)
]

abbrev torn_down : ShmOs → Handle → Handle × Bool
torn_down sys h =
    let (h1, r1) = detach sys h in
    let (h2, r2) = destroy sys h1 in (record h2 { magic = 0 }, r1 || r2)

-- The count is at least 1 in a slot that carries the magic number (`Rtapi.Shmem.Table.IsValid`), so the
-- truncated subtraction is exact.
abbrev drop_reference : Handle → Handle
drop_reference h = record h { count = h.count - 1 }

last_reference : ShmOs → ℕ → Handle → List Handle → Result ℕ × List Handle
last_reference sys n h array =
    (if (torn_down sys h).1 then err einval else ok 0, modify array n (λ _. (torn_down sys h).0))

release : ShmOs → ℕ → Handle → List Handle → Result ℕ × List Handle
unfolding last_reference
release sys n h array =
    if ltb 0 (h.count - 1)
    then (ok 0, modify array n drop_reference)
    else last_reference sys n (drop_reference h) array

unfoldable pub rtapi_shmem_delete : ShmOs → List Handle → ℤ → Result ℕ × List Handle
unfolding release
rtapi_shmem_delete sys array handle = elim (slot_of handle) [
  | none ↦ (err einval, array)
  | some n ↦ elim (get_elem? array n) [
    | none ↦ (err einval, array)
    | some h ↦ if h.magic == shmem_magic then release sys n h array else (err einval, array)
  ]
]

abbrev pub no_segments : List Handle
no_segments = replicate max_shm blank
