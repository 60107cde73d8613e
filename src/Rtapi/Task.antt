-- ===== src/Rtapi/Task.antt =====
-- rtapi/uspace_rtapi_app.cpp and rtapi/rtapi_uspace.h: real-time tasks, their table and life cycle.

mod Tests
pub mod Slots
pub mod Lifecycle
pub mod Starting
pub mod Deleting
pub mod Started
pub mod Wait
pub mod Pausing
pub mod Cycle
pub mod Waiting
use mathlib.Core.Option
use real_time_system.Common.{
  ℕ, zero, suc, ◌+◌, ◌-◌, ◌*◌, ◌/◌, ◌%◌, ◌^◌, ◌≡◌, Bool, true, false, ◌||◌, ◌&&◌, not, Option, none,
  some, List, [], ◌∷◌, ltb, leb, ◌==◌, if◌then◌else◌, get_elem?, set, replicate, Errno, einval,
  ealready, enospc, os, Result, ok, err, Outcome, done, hang, fault,
}
use real_time_system.Common.Int.{ℤ, pos, negsuc, ◌+ℤ◌, ◌-ℤ◌, ltb_ℤ, eqb_ℤ, pos_part, neg_part}
use real_time_system.Rtapi.Timespec.{Timespec, rtapi_timespec_advance, rtapi_timespec_less}

-- The `TASK_S_*` constants.
pub data TaskState : Type 0 where
  empty init allocated running paused deleted error : TaskState

-- `PosixTask` with the `rtapi_task` that it extends. Function and data pointers are numbers; `thr`
-- is `none` until `pthread_create` has filled it, and a semaphore is the number of its tokens.
pub record Task : Type 0 where
  pub magic : ℕ
  pub id : ℕ
  pub owner : ℕ
  pub uses_fp : ℕ
  pub stacksize : ℕ
  pub prio : ℤ
  pub period : ℕ
  pub nextstart : Timespec
  pub ratio : ℕ
  pub pll_correction : ℤ
  pub pll_correction_limit : ℤ
  pub arg : ℕ
  pub taskcode : ℕ
  pub state : TaskState
  pub owner_pid : ℕ
  pub error_code : ℕ
  pub thr : Option ℕ
  pub pause_sem : ℕ
  pub resume_sem : ℕ

-- An entry of `task_array`: NULL, TASK_MAGIC_INIT, or a task.
pub data Slot : Type 0 where
  null : Slot
  magic_init : Slot
  task : Task → Slot

abbrev pub max_tasks : ℕ
max_tasks = 64

abbrev pub task_magic : ℕ
task_magic = 21979

abbrev pub no_tasks : List Slot
no_tasks = replicate max_tasks null

-- `new PosixTask`
abbrev do_task_new : Task
do_task_new = record {
  magic = 0;
  id = 0;
  owner = 0;
  uses_fp = 0;
  stacksize = 0;
  prio = pos 0;
  period = 0;
  nextstart = record { sec = 0; nsec = 0 };
  ratio = 0;
  pll_correction = pos 0;
  pll_correction_limit = pos 0;
  arg = 0;
  taskcode = 0;
  state = empty;
  owner_pid = 0;
  error_code = 0;
  thr = none;
  pause_sem = 0;
  resume_sem = 0;
}

-- The first slot whose compare-and-swap from NULL succeeds.
pub allocate_task_id : List Slot → Option ℕ
allocate_task_id [] = none
allocate_task_id (null ∷ slots) = some 0
allocate_task_id (magic_init ∷ slots) = Option.map suc (allocate_task_id slots)
allocate_task_id (task t ∷ slots) = Option.map suc (allocate_task_id slots)

-- What a caller asks of `task_new`.
pub record Request : Type 0 where
  pub taskcode : ℕ
  pub arg : ℕ
  pub prio : ℤ
  pub owner : ℕ
  pub stacksize : ℕ
  pub uses_fp : ℕ

abbrev pub new_task : ℕ → Request → ℕ → Task
new_task pid r n = record do_task_new {
  id = n;
  owner = r.owner;
  uses_fp = r.uses_fp;
  arg = r.arg;
  stacksize = if ltb r.stacksize (1024 * 1024) then 1024 * 1024 else r.stacksize;
  taskcode = r.taskcode;
  prio = r.prio;
  magic = task_magic;
  owner_pid = pid;
  error_code = 0;
  state = allocated;
}

-- `highest` and `lowest` are the ends of the priorities, `pid` is what getpid returns.
pub task_new : (highest lowest : ℤ) (pid : ℕ) → Request → List Slot → Result ℕ × List Slot
unfolding allocate_task_id
task_new highest lowest pid r slots =
    if ltb_ℤ highest r.prio || ltb_ℤ r.prio lowest
    then (err einval, slots)
    else elim (allocate_task_id slots) [
      | none ↦ (err enospc, slots)
      | some n ↦ (ok n, set slots n (task (new_task pid r n)))
    ]

abbrev valid_task : Slot → Option Task
valid_task (task t) = if t.magic == task_magic then some t else none
valid_task _ = none

abbrev task_index : ℤ → Option ℕ
task_index (negsuc n) = none
task_index (pos n) = if leb max_tasks n then none else some n

abbrev task_at : Option Slot → Option Task
task_at none = none
task_at (some s) = valid_task s

pub get_task : List Slot → ℕ → Option Task
get_task slots n = task_at (get_elem? slots n)

-- An operation on the valid task with an id: -EINVAL without one.
pub on_task : (Task → Result ℕ × Slot) → List Slot → ℤ → Result ℕ × List Slot
unfolding get_task
on_task f slots task_id = elim (task_index task_id) [
  | none ↦ (err einval, slots)
  | some n ↦ elim (get_task slots n) [
    | none ↦ (err einval, slots)
    | some t ↦ let r = f t in (r.0, set slots n r.1)
  ]
]

-- The return codes of the pthread calls of one `task_start`, and what it reads of the machine.
pub record ThreadOs : Type 0 where
  pub attr_init : ℕ
  pub attr_setstacksize : ℕ
  pub attr_setschedpolicy : ℕ
  pub attr_setschedparam : ℕ
  pub attr_setinheritsched : ℕ
  pub attr_setaffinity : ℕ
  pub nprocs : ℕ
  pub rt_cpu_number : ℤ
  pub create : ℕ
  pub thread : ℕ

-- The first call that does not return 0.
abbrev first_failure : List ℕ → ℕ
first_failure [] = 0
first_failure (c ∷ cs) = if c == 0 then first_failure cs else c

abbrev affinity_code : ThreadOs → ℕ
affinity_code sys =
    if ltb 1 sys.nprocs && not (eqb_ℤ sys.rt_cpu_number (negsuc 0)) then sys.attr_setaffinity else 0

abbrev pub attr_code : ThreadOs → ℕ
attr_code sys = first_failure (
    sys.attr_init
    ∷ sys.attr_setstacksize
    ∷ sys.attr_setschedpolicy
    ∷ sys.attr_setschedparam
    ∷ sys.attr_setinheritsched
    ∷ affinity_code sys
    ∷ [])

-- The correction is limited to 1% of the cycle time.
abbrev timed : ℕ → Task → Task
timed period_nsec t = record t {
  period = period_nsec;
  pll_correction_limit = pos (period_nsec / 100);
  pll_correction = pos 0;
}

abbrev launch : ThreadOs → Task → Result ℕ × Slot
launch sys t =
    if attr_code sys == 0
    then if sys.create == 0
      then (ok 0, task (record t { state = running; thr = some sys.thread }))
      else (err (os sys.create), task (record t { state = allocated; error_code = sys.create }))
    else (err (os (attr_code sys)), task (record t { error_code = attr_code sys }))

pub start_task : ThreadOs → ℕ → Task → Result ℕ × Slot
start_task sys period_nsec t = elim t.state [
  | running ↦ (err ealready, task t)
  | allocated ↦ launch sys (timed period_nsec t)
  | _ ↦ (err einval, task t)
]

pub task_start : ThreadOs → List Slot → ℤ → ℕ → Result ℕ × List Slot
unfolding start_task on_task
task_start sys slots task_id period_nsec = on_task (start_task sys period_nsec) slots task_id

pub pause_task : Task → Result ℕ × Slot
pause_task t = elim t.state [
  | running ↦ (ok 0, task (record t { state = paused; pause_sem = t.pause_sem + 1 }))
  | _ ↦ (err einval, task t)
]

pub task_pause : List Slot → ℤ → Result ℕ × List Slot
unfolding pause_task on_task
task_pause = on_task pause_task

pub resume_task : Task → Result ℕ × Slot
resume_task t = elim t.state [
  | paused ↦ (ok 0, task (record t { resume_sem = t.resume_sem + 1 }))
  | _ ↦ (err einval, task t)
]

pub task_resume : List Slot → ℤ → Result ℕ × List Slot
unfolding resume_task on_task
task_resume = on_task resume_task

-- To cancel and join a task whose thread was never created is undefined.
join : Task → Outcome (Result ℕ × Slot)
join t = elim t.thr [ none ↦ fault | some _ ↦ done (ok 0, null) ]

pub delete_task : Task → Outcome (Result ℕ × Slot)
unfolding join
delete_task t = elim t.state [
  | deleted ↦ done (err ealready, task t)
  | empty ↦ done (err einval, task t)
  | init ↦ done (err einval, task t)
  | _ ↦ join t
]

abbrev written : List Slot → ℕ → Outcome (Result ℕ × Slot) → Outcome (Result ℕ × List Slot)
written slots n (done (r, s)) = done (r, set slots n s)
written slots n hang = hang
written slots n fault = fault

-- The task's memory is given back, so the semaphore that a paused task is sent is not kept.
pub task_delete : List Slot → ℤ → Outcome (Result ℕ × List Slot)
unfolding get_task delete_task
task_delete slots task_id = elim (task_index task_id) [
  | none ↦ done (err einval, slots)
  | some n ↦ elim (get_task slots n) [
    | none ↦ done (err einval, slots)
    | some t ↦ written slots n (delete_task t)
  ]
]

-- Here TASK_MAGIC_INIT is not told apart from a task, and is dereferenced.
pub rtapi_task_getstate : List Slot → ℤ → Outcome TaskState
rtapi_task_getstate slots task_id = elim (task_index task_id) [
  | none ↦ done error
  | some n ↦ elim (get_elem? slots n) [
    | none ↦ done error
    | some null ↦ done error
    | some magic_init ↦ fault
    | some (task t) ↦ done (if t.magic == task_magic then t.state else error)
  ]
]
