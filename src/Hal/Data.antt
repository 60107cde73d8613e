-- ===== src/Hal/Data.antt =====
-- hal/hal_priv.h and hal/hal.h: the structures in HAL shared memory. A pointer is its offset in the
-- block, and a structure carries its own offset `off`. A linked list is the list of its structures
-- in order; so is a free list. Function and data pointers of the clients are numbers.
use real_time_system.Common.{ℕ, ◌*◌, Bool, Option, List}
use real_time_system.Common.Int.{ℤ}
use real_time_system.Common.Names.{Name}

-- `hal_state_t`
pub data HalState : Type 0 where
  uninit initializing active running shutting_down destroyed error : HalState

-- `component_type_t`
pub data CompType : Type 0 where
  unknown user realtime other : CompType

-- `hal_type_t`
pub data HalType : Type 0 where
  unspecified uninitialized bit float s32 u32 port s64 u64 int32 type_max : HalType

-- `hal_param_dir_t`, with the values that are none of its constants.
pub data ParamDir : Type 0 where
  ro rw : ParamDir
  other_dir : ℕ → ParamDir

-- `hal_oldname_t`
pub record Oldname : Type 0 where
  pub off : ℕ
  pub name : Name

-- `hal_comp_t`
pub record Comp : Type 0 where
  pub off : ℕ
  pub comp_id : ℕ
  pub mem_id : ℕ
  pub type : CompType
  pub ready : ℕ
  pub pid : ℕ
  pub shmem_base : ℕ
  pub name : Name
  pub make : ℕ
  pub insmod_args : ℕ

-- `hal_pin_t`
pub record Pin : Type 0 where
  pub off : ℕ
  pub data_ptr_addr : ℕ
  pub owner_ptr : ℕ
  pub signal : ℕ
  pub dummysig : ℤ
  pub oldname : Option Oldname
  pub type : HalType
  pub name : Name

-- `hal_param_t`
pub record Param : Type 0 where
  pub off : ℕ
  pub data_ptr : ℕ
  pub owner_ptr : ℕ
  pub oldname : Option Oldname
  pub type : HalType
  pub dir : ParamDir
  pub name : Name

-- `hal_funct_t`; `runtime` is `none` for NULL, or else the value behind the pointer.
pub record Funct : Type 0 where
  pub off : ℕ
  pub uses_fp : ℕ
  pub owner_ptr : ℕ
  pub reentrant : ℕ
  pub users : ℕ
  pub arg : ℕ
  pub funct : ℕ
  pub runtime : Option ℤ
  pub maxtime : ℤ
  pub maxtime_increased : Bool
  pub name : Name

-- `hal_funct_entry_t`
pub record Entry : Type 0 where
  pub off : ℕ
  pub arg : ℕ
  pub funct : ℕ
  pub funct_ptr : ℕ

-- `hal_thread_t`; the value behind `runtime` stands for the pointer.
pub record Thread : Type 0 where
  pub off : ℕ
  pub uses_fp : ℕ
  pub period : ℕ
  pub priority : ℤ
  pub task_id : ℕ
  pub runtime : ℤ
  pub maxtime : ℤ
  pub funct_list : List Entry
  pub name : Name
  pub comp_id : ℤ

-- `hal_data_t`; `mutex` says whether bit 0 of the mutex word is set. `pin_pointers` is no field of it: it
-- holds the pointers to the values of pins that stand in the rest of the block, by their offsets.
pub record HalData : Type 0 where
  pub mutex : Bool
  pub shmem_avail : ℕ
  pub pending_constructor : ℕ
  pub constructor_prefix : Name
  pub shmem_bot : ℕ
  pub shmem_top : ℕ
  pub comp_list : List Comp
  pub pin_list : List Pin
  pub param_list : List Param
  pub funct_list : List Funct
  pub thread_list : List Thread
  pub base_period : ℕ
  pub threads_running : ℕ
  pub oldname_free : List Oldname
  pub comp_free : List Comp
  pub pin_free : List Pin
  pub param_free : List Param
  pub funct_free : List Funct
  pub funct_entry_free : List Entry
  pub thread_free : List Thread
  pub exact_base_period : ℕ
  pub lock : ℕ
  pub state : HalState
  pub init_pid : ℕ
  pub error_code : ℕ
  pub pin_pointers : List (ℕ × ℕ)

-- The structure that the bytes of the segment make at an offset, where no call has written yet: zero in a
-- segment that was just made, and anything in one that a process before has used.
pub record Unset : Type 0 where
  pub comp : ℕ → Comp
  pub pin : ℕ → Pin
  pub param : ℕ → Param
  pub funct : ℕ → Funct
  pub thread : ℕ → Thread

-- The sizes of the structures and the offsets of some fields, which the compiler fixes, and the memory
-- that they stand in.
pub record Sizes : Type 0 where
  pub of_data : ℕ
  pub of_comp : ℕ
  pub of_pin : ℕ
  pub of_param : ℕ
  pub of_funct : ℕ
  pub of_entry : ℕ
  pub of_thread : ℕ
  pub dummysig_at : ℕ
  pub funct_runtime_at : ℕ
  pub funct_maxtime_at : ℕ
  pub funct_increased_at : ℕ
  pub thread_runtime_at : ℕ
  pub thread_maxtime_at : ℕ
  pub unset : Unset

abbrev pub hal_name_len : ℕ
hal_name_len = 47

abbrev pub hal_size : ℕ
hal_size = 256 * 4096

abbrev pub hal_lock_none : ℕ
hal_lock_none = 0

abbrev pub hal_lock_load : ℕ
hal_lock_load = 1

abbrev pub hal_lock_config : ℕ
hal_lock_config = 2

abbrev pub hal_lock_params : ℕ
hal_lock_params = 4

abbrev pub hal_lock_run : ℕ
hal_lock_run = 8
