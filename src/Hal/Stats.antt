-- ===== src/Hal/Stats.antt =====
-- hal/hal_lib.c: `hal_get_stats`, and `hal_stats_t` of hal/hal_priv.h.
pub mod Memory
mod Tests
use real_time_system.Common.{
  ℕ, Bool, true, false, Option, none, some, List, if◌then◌else◌, length, einval, Result, ok, err,
  Outcome, done, hang, fault,
}
use real_time_system.Hal.Data.{HalData, HalState, hal_size}
use real_time_system.Hal.Calls.{locked}

pub record Stats : Type 0 where
  pub state : HalState
  pub comp_count : ℕ
  pub pin_count : ℕ
  pub param_count : ℕ
  pub funct_count : ℕ
  pub thread_count : ℕ
  pub threads_running : ℕ
  pub shmem_avail : ℕ
  pub shmem_total : ℕ
  pub init_pid : ℕ
  pub error_code : ℕ

abbrev pub stats_of : HalData → Stats
stats_of d = record {
  state = d.state;
  comp_count = length d.comp_list;
  pin_count = length d.pin_list;
  param_count = length d.param_list;
  funct_count = length d.funct_list;
  thread_count = length d.thread_list;
  threads_running = d.threads_running;
  shmem_avail = d.shmem_avail;
  shmem_total = hal_size;
  init_pid = d.init_pid;
  error_code = d.error_code;
}

abbrev kept : Outcome (Result Stats × HalData) → Outcome (Result Stats × Option HalData)
kept (done (r, d)) = done (r, some d)
kept hang = hang
kept fault = fault

-- `is_null` says that the caller passes NULL.
unfoldable pub hal_get_stats : Bool → Option HalData → Outcome (Result Stats × Option HalData)
hal_get_stats is_null none = done (err einval, none)
hal_get_stats is_null (some d) =
    if is_null
    then done (err einval, some d)
    else kept (locked (λ d'. done (ok (stats_of d'), d')) d)
