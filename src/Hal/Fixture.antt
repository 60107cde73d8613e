-- ===== src/Hal/Fixture.antt =====
-- Shared data of hal/hal_lib.c for the tests.
use real_time_system.Common.{ℕ, false, [], ◌∷◌, none, some}
use real_time_system.Common.Int.{pos}
use real_time_system.Hal.Data.{
  HalData, Sizes, Funct, Entry, Thread, Comp, Pin, Param, user, uninitialized, other_dir, realtime,
  uninit, active, hal_size,
}

-- Memory of a new segment is zero.
abbrev zero_comp : ℕ → Comp
zero_comp off = record {
  off = off;
  comp_id = 0;
  mem_id = 0;
  type = user;
  ready = 0;
  pid = 0;
  shmem_base = 0;
  name = [];
  make = 0;
  insmod_args = 0;
}

abbrev zero_pin : ℕ → Pin
zero_pin off = record {
  off = off;
  data_ptr_addr = 0;
  owner_ptr = 0;
  signal = 0;
  dummysig = pos 0;
  oldname = none;
  type = uninitialized;
  name = [];
}

abbrev zero_param : ℕ → Param
zero_param off = record {
  off = off;
  data_ptr = 0;
  owner_ptr = 0;
  oldname = none;
  type = uninitialized;
  dir = other_dir 0;
  name = [];
}

abbrev zero_funct : ℕ → Funct
zero_funct off = record {
  off = off;
  uses_fp = 0;
  owner_ptr = 0;
  reentrant = 0;
  users = 0;
  arg = 0;
  funct = 0;
  runtime = none;
  maxtime = pos 0;
  maxtime_increased = false;
  name = [];
}

abbrev zero_thread : ℕ → Thread
zero_thread off = record {
  off = off;
  uses_fp = 0;
  period = 0;
  priority = pos 0;
  task_id = 0;
  runtime = pos 0;
  maxtime = pos 0;
  funct_list = [];
  name = [];
  comp_id = pos 0;
}

abbrev pub sizes : Sizes
sizes = record {
  of_data = 400;
  of_comp = 128;
  of_pin = 128;
  of_param = 128;
  of_funct = 128;
  of_entry = 32;
  of_thread = 128;
  dummysig_at = 32;
  funct_runtime_at = 48;
  funct_maxtime_at = 56;
  funct_increased_at = 60;
  thread_runtime_at = 32;
  thread_maxtime_at = 40;
  unset = record {
    comp = zero_comp;
    pin = zero_pin;
    param = zero_param;
    funct = zero_funct;
    thread = zero_thread;
  };
}

abbrev pub zero_data : HalData
zero_data = record {
  mutex = false;
  shmem_avail = 0;
  pending_constructor = 0;
  constructor_prefix = [];
  shmem_bot = 0;
  shmem_top = 0;
  comp_list = [];
  pin_list = [];
  param_list = [];
  funct_list = [];
  thread_list = [];
  base_period = 0;
  threads_running = 0;
  oldname_free = [];
  comp_free = [];
  pin_free = [];
  param_free = [];
  funct_free = [];
  funct_entry_free = [];
  thread_free = [];
  exact_base_period = 0;
  lock = 0;
  state = uninit;
  init_pid = 0;
  error_code = 0;
  pin_pointers = [];
}

-- After `init_hal_data`
abbrev pub active_data : HalData
active_data = record zero_data {
  state = active;
  shmem_bot = 400;
  shmem_top = hal_size;
  init_pid = 77;
}

-- A component with id 5, and a function that one entry of one thread calls.
abbrev pub comp_5 : Comp
comp_5 = record {
  off = 1000;
  comp_id = 5;
  mem_id = 0;
  type = realtime;
  ready = 0;
  pid = 0;
  shmem_base = 0;
  name = [];
  make = 0;
  insmod_args = 0;
}

abbrev pub funct_f : Funct
funct_f = record {
  off = 500;
  uses_fp = 0;
  owner_ptr = 1000;
  reentrant = 0;
  users = 1;
  arg = 9;
  funct = 4000;
  runtime = some (pos 12);
  maxtime = pos 10;
  maxtime_increased = false;
  name = 102 ∷ [];
}

abbrev pub entry_f : Entry
entry_f = record { off = 600; arg = 9; funct = 4000; funct_ptr = 500 }

abbrev pub thread_t : Thread
thread_t = record {
  off = 700;
  uses_fp = 1;
  period = 1_000_000;
  priority = pos 50;
  task_id = 0;
  runtime = pos 0;
  maxtime = pos 0;
  funct_list = entry_f ∷ [];
  name = 116 ∷ [];
  comp_id = pos 0;
}

abbrev pub mounted_data : HalData
mounted_data = record active_data {
  comp_list = comp_5 ∷ [];
  funct_list = funct_f ∷ [];
  thread_list = thread_t ∷ [];
  threads_running = 1;
}
