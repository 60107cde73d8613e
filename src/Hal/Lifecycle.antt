-- ===== src/Hal/Lifecycle.antt =====
-- hal/hal_lib.c: the life cycle of the HAL (`init_hal_data`, `hal_start_threads`,
-- `hal_stop_threads`, `hal_set_lock`, `hal_get_lock` and `hal_get_state`).
mod Tests
use real_time_system.Common.{
  ℕ, ◌%◌, ◌^◌, ◌≡◌, ◌⊎◌, inl, inr, false, Option, none, some, List, [], ◌∷◌, if◌then◌else◌, arith,
  einval, eperm, ealready, Result, ok, err, Outcome, done,
}
use real_time_system.Hal.Data.{
  HalData, HalState, Sizes, uninit, active, running, hal_size, hal_lock_none, hal_lock_run,
}
use real_time_system.Hal.Calls.{locked, is_locked}

-- The pin lists are not touched.
abbrev cleared : ℕ → ℕ → HalData → HalData
cleared size_of_data pid d = record d {
  comp_list = [];
  param_list = [];
  funct_list = [];
  thread_list = [];
  base_period = 0;
  threads_running = 0;
  oldname_free = [];
  comp_free = [];
  param_free = [];
  funct_free = [];
  pending_constructor = 0;
  constructor_prefix = [];
  funct_entry_free = [];
  thread_free = [];
  exact_base_period = 0;
  shmem_bot = size_of_data;
  shmem_top = hal_size;
  lock = hal_lock_none;
  state = active;
  init_pid = pid;
  error_code = 0;
}

-- `pid` is what getpid returns.
unfoldable pub init_hal_data : Sizes → ℕ → HalData → Outcome (Result ℕ × HalData)
init_hal_data sizes pid d = locked (λ d'. done (ok 0, cleared sizes.of_data pid d')) d

abbrev started : HalData → Result ℕ × HalData
started d = elim d.state [
  | running ↦ (err ealready, d)
  | active ↦ (ok 0, record d { threads_running = 1; state = running })
  | _ ↦ (err einval, d)
]

abbrev stopped : HalData → Result ℕ × HalData
stopped d = elim d.state [
  | active ↦ (err ealready, d)
  | running ↦ (ok 0, record d { threads_running = 0; state = active })
  | _ ↦ (err einval, d)
]

-- The calls that take no mutex.
abbrev unless_null : (HalData → Result ℕ × HalData) → Option HalData → Result ℕ × Option HalData
unless_null f none = (err einval, none)
unless_null f (some d) = let r = f d in (r.0, some r.1)

abbrev unless_locked : (HalData → Result ℕ × HalData) → HalData → Result ℕ × HalData
unless_locked f d = if is_locked hal_lock_run d then (err eperm, d) else f d

unfoldable pub hal_start_threads : Option HalData → Result ℕ × Option HalData
hal_start_threads = unless_null (unless_locked started)

unfoldable pub hal_stop_threads : Option HalData → Result ℕ × Option HalData
hal_stop_threads = unless_null (unless_locked stopped)

-- `lock_type` is an unsigned char.
unfoldable pub hal_set_lock : ℕ → Option HalData → Result ℕ × Option HalData
hal_set_lock lock_type = unless_null (λ d. (ok 0, record d { lock = lock_type % 2 ^ 8 }))

-- Without data, -EINVAL (-22) is cut down to an unsigned char.
unfoldable pub hal_get_lock : Option HalData → ℕ
hal_get_lock none = 234
hal_get_lock (some d) = d.lock

unfoldable pub hal_get_state : Option HalData → HalState
hal_get_state none = uninit
hal_get_state (some d) = d.state

-- The threads run exactly in the state RUNNING, and the state is ACTIVE or RUNNING.
abbrev pub IsSettled : HalData → Type 0
IsSettled d =
    ((d.state ≡ active) × (d.threads_running ≡ 0)) ⊎ ((d.state ≡ running) × (d.threads_running ≡ 1))

abbrev pub Settled : Option HalData → Type 0
Settled none = Unit
Settled (some d) = IsSettled d

pub data Call : Type 0 where
  start stop : Call
  lock : ℕ → Call

pub step : Call → Option HalData → Result ℕ × Option HalData
unfolding hal_start_threads hal_stop_threads hal_set_lock
step start h = hal_start_threads h
step stop h = hal_stop_threads h
step (lock l) h = hal_set_lock l h

pub run : List Call → Option HalData → Option HalData
unfolding step
run [] h = h
run (c ∷ cs) h = run cs (step c h).1

step-Settled : (c : Call) (h : Option HalData) → Settled h → Settled (step c h).1
unfolding step hal_start_threads hal_stop_threads hal_set_lock
step-Settled start none s = tt
step-Settled stop none s = tt
step-Settled (lock l) none s = tt
step-Settled start (some d) (inl (a, b)) = ground arith
step-Settled start (some d) (inr (a, b)) = ground arith
step-Settled stop (some d) (inl (a, b)) = ground arith
step-Settled stop (some d) (inr (a, b)) = ground arith
step-Settled (lock l) (some d) s = s

run-Settled : (cs : List Call) (h : Option HalData) → Settled h → Settled (run cs h)
unfolding run
run-Settled [] h s = s
run-Settled (c ∷ cs) h s = run-Settled cs (step c h).1 (step-Settled c h s)

-- After `init_hal_data` has returned 0 and any sequence of `hal_start_threads`, `hal_stop_threads` and
-- `hal_set_lock`, either the state is RUNNING and `threads_running` is 1, or the state is ACTIVE and
-- `threads_running` is 0.
pub init_run-Settled :
    (sizes : Sizes) (pid : ℕ) (d d' : HalData) (cs : List Call)
    → init_hal_data sizes pid d ≡ done (ok 0, d')
    → Settled (run cs (some d'))
unfolding init_hal_data
init_run-Settled sizes pid d d' cs e = run-Settled cs (some d') (ground arith)

-- `hal_start_threads` and then `hal_stop_threads`, on data in state ACTIVE that is not locked against
-- running, both return 0 and give back the data with `threads_running` 0.
pub stop-start :
    (d : HalData)
    → d.state ≡ active
    → is_locked hal_lock_run d ≡ false
    → ((hal_start_threads (some d)).0 ≡ ok 0)
      × (hal_stop_threads (hal_start_threads (some d)).1
          ≡ (ok 0, some (record d { threads_running = 0; state = active })))
unfolding hal_start_threads hal_stop_threads
stop-start d a u = (ground arith, ground arith)
