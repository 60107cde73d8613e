-- ===== src/Hal/Threads/Create.antt =====
-- hal/hal_lib.c: `hal_create_thread`, over the shared data, the table of tasks and the period of the
-- application.
pub mod Running
pub mod Rollback
mod Tests
use mathlib.Core.Option
use real_time_system.Common.{
  ℕ, ◌+◌, ◌/◌, Bool, true, false, Option, none, some, List, [], ◌∷◌, ◌++◌, map, ltb, ◌==◌,
  if◌then◌else◌, length, einval, eperm, enomem, Result, ok, err, Outcome, done, hang, fault,
}
use real_time_system.Common.Int.{ℤ, pos, negsuc, eqb_ℤ, ltb_ℤ}
use real_time_system.Common.Names.{Name, snprintf}
use real_time_system.Common.Codes.{minus}
use real_time_system.Common.Runs.{Run, pure, after, ◌>>=◌, ◌>>◌}
use real_time_system.Rtapi.Task.{Slot, Request, ThreadOs, task_new, task_start, task_delete}
use real_time_system.Rtapi.Clock.{to_long, clock_set_period}
use real_time_system.Hal.Data.{HalData, Sizes, Thread, s32, rw, hal_name_len, hal_lock_config}
use real_time_system.Hal.Sorted.{find_by_name}
use real_time_system.Hal.Structs.{alloc_thread_struct}
use real_time_system.Hal.Calls.{is_locked, keep}
use real_time_system.Hal.Comps.{hal_init, hal_ready}
use real_time_system.Hal.Params.{hal_param_new}
use real_time_system.Hal.Pins.{hal_pin_newf}
use real_time_system.Hal.Functs.{suffixed, dot_time, dot_tmax}
use real_time_system.Hal.Threads.{free_thread_struct}

pub record Machine : Type 0 where
  pub hal : Option HalData
  pub slots : List Slot
  pub period : ℤ

-- What the call finds in its process: where the memory is mapped, the id of the library, the address of
-- `thread_task`, the ends of the priorities, the process, and what the system answers. `uuid` is what
-- rtapi_init returns.
pub record Env : Type 0 where
  pub sizes : Sizes
  pub base : ℕ
  pub lib_module_id : ℕ
  pub thread_task : ℕ
  pub highest : ℤ
  pub lowest : ℤ
  pub pid : ℕ
  pub thread_os : ThreadOs
  pub uuid : Result ℕ

pub record Asked : Type 0 where
  pub name : Name
  pub period_nsec : ℕ
  pub uses_fp : ℕ
  pub priority : ℤ

abbrev pub hal_stacksize : ℕ
hal_stacksize = 16_384

abbrev pub Answer : Type 0
Answer = Outcome (Result ℕ × Machine)

-- A return from under the mutex.
abbrev pub give : ℤ → Result ℕ → HalData → List Slot → Answer
give period r d slots =
    done (r, record { hal = some (record d { mutex = false }); slots = slots; period = period })

-- A rollback: the new structure is freed, and the call returns -EINVAL.
abbrev pub rolled_back : ℤ → Outcome (HalData × List Slot) → Answer
rolled_back period (done (d, slots)) = give period (err einval) d slots
rolled_back period hang = hang
rolled_back period fault = fault

abbrev pub roll_back : ℤ → Thread → HalData → List Slot → Answer
roll_back period t d slots = rolled_back period (free_thread_struct t d slots)

-- The period of the application, once the first thread asks for one; `none` if it cannot be had.
abbrev pub set_first : ℤ × ℤ → Option ℤ × ℤ
set_first (r, period) = (if ltb_ℤ r (pos 0) then none else some r, period)

abbrev pub curr_period : ℕ → ℤ → Option ℤ × ℤ
curr_period period_nsec period =
    if eqb_ℤ (clock_set_period (pos 0) period).0 (pos 0)
    then set_first (clock_set_period (to_long period_nsec) period)
    else (some (clock_set_period (pos 0) period).0, period)

-- 1% more than the period wanted, in the arithmetic of unsigned long
abbrev pub is_too_slow : ℤ → ℕ → Bool
is_too_slow curr period_nsec = ltb_ℤ (to_long (period_nsec + period_nsec / 100)) curr

abbrev pub period_fits : ℕ → Option ℤ → Bool
period_fits period_nsec none = false
period_fits period_nsec (some curr) = if is_too_slow curr period_nsec then false else true

-- Only the first thread is measured against the period of the application.
abbrev pub clocked : ℕ → List Thread → ℤ → Bool × ℤ
clocked period_nsec [] period =
    (period_fits period_nsec (curr_period period_nsec period).0, (curr_period period_nsec period).1)
clocked period_nsec (t ∷ ts) period = (true, period)

-- After `rtapi_task_start`: the thread is put in front of the list, or the task is deleted.
abbrev pub dropped : ℤ → Thread → HalData → Outcome (Result ℕ × List Slot) → Answer
dropped period t d (done (r, slots)) = roll_back period t d slots
dropped period t d hang = hang
dropped period t d fault = fault

abbrev pub linked : ℤ → Thread → HalData → Result ℕ × List Slot → Answer
linked period t d (ok r, slots) =
    give period (ok t.off) (record d { thread_list = t ∷ d.thread_list }) slots
linked period t d (err e, slots) = dropped period t d (task_delete slots (pos t.task_id))

-- After `rtapi_task_new`
abbrev pub tasked : Env → ℤ → Thread → HalData → Result ℕ × List Slot → Answer
tasked env period t d (err e, slots) = roll_back period t d slots
tasked env period t d (ok n, slots) =
    linked period (record t { task_id = n }) d (task_start env.thread_os slots (pos n) t.period)

abbrev pub request : Env → Thread → Request
request env t = record {
  taskcode = env.thread_task;
  arg = t.off;
  prio = t.priority;
  owner = env.lib_module_id;
  stacksize = hal_stacksize;
  uses_fp = t.uses_fp;
}

-- With the new structure.
abbrev pub named : Asked → Thread → Thread
named x t = record t { uses_fp = x.uses_fp; name = snprintf (hal_name_len + 1) x.name }

abbrev pub timed : Asked → Thread → Thread
timed x t = record (named x t) { period = x.period_nsec; priority = x.priority }

abbrev pub run_task : Env → Asked → Thread → HalData → List Slot → Bool × ℤ → Answer
run_task env x t d slots (false, period) = roll_back period (named x t) d slots
run_task env x t d slots (true, period) =
    tasked env period (timed x t) d
      (task_new env.highest env.lowest env.pid (request env (timed x t)) slots)

abbrev pub allocated : Env → Asked → List Slot → ℤ → Option Thread × HalData → Answer
allocated env x slots period (none, d) = give period (err enomem) d slots
allocated env x slots period (some t, d) =
    run_task env x t d slots (clocked x.period_nsec d.thread_list period)

abbrev pub unless_named : Env → Asked → HalData → List Slot → ℤ → Option Thread → Answer
unless_named env x d slots period (some t) = give period (err einval) d slots
unless_named env x d slots period none =
    allocated env x slots period (alloc_thread_struct env.sizes d)

-- The call up to the end of the mutex; the value is the offset of the new structure.
abbrev pub link : Env → Asked → HalData → List Slot → ℤ → Answer
link env x d slots period =
    if d.mutex
    then hang
    else unless_named env x (record d { mutex = true }) slots period
        (find_by_name (λ (t : Thread). t.name) x.name d.thread_list)

abbrev pub back : Result ℕ → HalData → List Slot → ℤ → Answer
back r d slots period = done (r, record { hal = some d; slots = slots; period = period })

abbrev pub guarded : Env → Asked → HalData → List Slot → ℤ → Answer
guarded env x d slots period =
    if x.period_nsec == 0
    then back (err einval) d slots period
    else if ltb hal_name_len (length x.name)
    then back (err einval) d slots period
    else if is_locked hal_lock_config d
    then back (err eperm) d slots period
    else link env x d slots period

unfoldable pub link_thread : Env → Asked → Machine → Answer
link_thread env x m = elim m.hal [
  | none ↦ done (err einval, m)
  | some d ↦ guarded env x d m.slots m.period
]

-- A call that reads the shared data without a test for NULL.
abbrev pub on_data : (HalData → Outcome (Result ℕ × HalData)) → Run (Option HalData) (Result ℕ)
on_data f none = fault
on_data f (some d) = keep (f d)

-- An assignment to a field of the thread at an offset.
abbrev pub thread_at : ℕ → (Thread → Thread) → Thread → Thread
thread_at off g t = if t.off == off then g t else t

abbrev pub assign : ℕ → (Thread → Thread) → Run (Option HalData) (Unit {0})
assign off g none = done (tt, none)
assign off g (some d) =
    done (tt, some (record d { thread_list = map (thread_at off g) d.thread_list }))

-- HAL_PSEUDO_COMP_PREFIX"%s"
abbrev pub pseudo_name : Name → Name
pseudo_name name = suffixed (b'_' ∷ b'_' ∷ []) name

abbrev pub finished : ℕ → ℕ → Result ℕ → Run (Option HalData) (Result ℕ)
finished id off (err e) = pure (err einval)
finished id off (ok r) = do
  assign off (λ t. record t { runtime = pos 0 })
  on_data (hal_ready id)
  pure (ok id)

abbrev pub with_pin : Env → Name → ℕ → ℕ → Result ℕ → Run (Option HalData) (Result ℕ)
with_pin env name id off (err e) = pure (err einval)
with_pin env name id off (ok r) =
    hal_pin_newf env.sizes (name ++ dot_time) s32 (some (pos (off + env.sizes.thread_runtime_at)))
      id
    >>= finished id off

abbrev pub with_component : Env → Name → ℕ → Result ℕ → Run (Option HalData) (Result ℕ)
with_component env name off (err e) = do
  assign off (λ t. record t { comp_id = minus e })
  pure (err einval)
with_component env name off (ok id) = do
  assign off (λ t. record t { comp_id = pos id })
  assign off (λ t. record t { maxtime = pos 0 })
  r ←
      hal_param_new env.sizes (suffixed name dot_tmax) s32 rw
        (pos (off + env.sizes.thread_maxtime_at)) id
  with_pin env name id off r

-- The pseudo component of the thread, with its pin and its parameter.
abbrev pub equipped : Env → Name → ℕ → Run (Option HalData) (Result ℕ)
equipped env name off = do
  r ← on_data (hal_init env.sizes env.base (some (pseudo_name name)) env.uuid)
  with_component env name off r

abbrev pub put_hal : Machine → Outcome (Result ℕ × Option HalData) → Answer
put_hal m (done (r, h)) = done (r, record m { hal = h })
put_hal m hang = hang
put_hal m fault = fault

abbrev pub on_machine : Run (Option HalData) (Result ℕ) → Run Machine (Result ℕ)
on_machine f m = put_hal m (f m.hal)

abbrev pub after_link : Env → Name → Result ℕ → Run Machine (Result ℕ)
after_link env name (err e) = pure (err e)
after_link env name (ok off) = on_machine (equipped env (snprintf (hal_name_len + 1) name) off)

unfoldable pub hal_create_thread : Env → Asked → Run Machine (Result ℕ)
unfolding link_thread hal_init hal_param_new hal_pin_newf hal_ready
hal_create_thread env x = link_thread env x >>= after_link env x.name
