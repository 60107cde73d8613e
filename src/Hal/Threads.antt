-- ===== src/Hal/Threads.antt =====
-- hal/hal_lib.c: threads (`free_thread_struct`, `hal_thread_delete` and `hal_app_exit` as far as the
-- shared memory is mapped), over the shared data and the table of tasks.
mod Tests
pub mod Counts
pub mod Deletion
pub mod Create
use Prim.Native.Nat.{Ordering}
use mathlib.Core.Option
use real_time_system.Common.{
  ℕ, Bool, true, false, Option, none, some, List, [], ◌∷◌, ltb, ◌==◌, if◌then◌else◌, einval, eperm,
  ealready, Result, ok, err, Outcome, done, hang, fault,
}
use real_time_system.Common.Int.{ℤ, pos, negsuc, eqb_ℤ}
use real_time_system.Common.Names.{Name, strcmp}
use real_time_system.Rtapi.Task.{Slot, task_pause, task_delete}
use real_time_system.Hal.Data.{
  HalData, HalState, Thread, active, running, shutting_down, hal_lock_config,
}
use real_time_system.Hal.Structs.{free_entries, emptied_thread}
use real_time_system.Hal.Calls.{is_locked, needs_data, locked}
use real_time_system.Hal.Comps.{hal_exit, is_destroyed, removed}

abbrev pub entries_freed : Thread → HalData → HalData
entries_freed t d =
    let d' = free_entries t.funct_list d in
    record d' { thread_free = emptied_thread t ∷ d'.thread_free }

abbrev pub freed : Thread → HalData → Outcome (Result ℕ × List Slot) → Outcome (HalData × List Slot)
freed t d (done (r, slots)) = done (entries_freed t d, slots)
freed t d hang = hang
freed t d fault = fault

-- What the calls on the task return is not tested.
unfoldable pub free_thread_struct : Thread → HalData → List Slot → Outcome (HalData × List Slot)
free_thread_struct t d slots =
    let paused = (task_pause slots (pos t.task_id)).1 in
    freed t (record d { threads_running = 0 }) (task_delete paused (pos t.task_id))

-- The thread with a name, and the list without it.
unfoldable pub take_thread : Name → List Thread → Option (Thread × List Thread)
take_thread n [] = none
take_thread n (t ∷ ts) = elim (strcmp t.name n) [
  | Ordering.eq ↦ some (t, ts)
  | _ ↦ Option.map (λ (r : Thread × List Thread). (r.0, t ∷ r.1)) (take_thread n ts)
]

abbrev pub Ends : Type 0
Ends = Outcome (Result ℕ × (Option HalData × List Slot))

abbrev unlocked_at : Outcome (HalData × List Slot) → Ends
unlocked_at (done (d, slots)) = done (ok 0, (some (record d { mutex = false }), slots))
unlocked_at hang = hang
unlocked_at fault = fault

-- `hal_exit` of an id that may be negative, which finds no component.
abbrev pub exit_component : ℤ → Option HalData → Outcome (Result ℕ × Option HalData)
exit_component (pos id) = hal_exit id
exit_component (negsuc n) =
    needs_data (λ d.
      if is_destroyed d.state then done (err ealready, d) else locked (λ d'. removed d' none) d)

-- The rest of the call, once the pseudo component of the thread is gone.
abbrev unlinked : Thread → List Thread → List Slot → Outcome (Result ℕ × Option HalData) → Ends
unlinked t ts slots (done (r, none)) = fault
unlinked t ts slots (done (r, some d)) =
    unlocked_at
      (free_thread_struct (record t { comp_id = pos 0 }) (record d { thread_list = ts }) slots)
unlinked t ts slots hang = hang
unlinked t ts slots fault = fault

abbrev deleted : HalData → List Slot → Option (Thread × List Thread) → Ends
deleted d slots none = done (err einval, (some (record d { mutex = false }), slots))
deleted d slots (some (t, ts)) =
    if eqb_ℤ t.comp_id (pos 0)
    then unlinked t ts slots (done (ok 0, some d))
    else unlinked t ts slots (exit_component t.comp_id (some d))

abbrev is_up : HalState → Bool
is_up active = true
is_up running = true
is_up _ = false

abbrev thread_deleted : Name → HalData → List Slot → Ends
thread_deleted n d slots =
    if is_locked hal_lock_config d
    then done (err eperm, (some d, slots))
    else if is_up d.state
    then if d.mutex
      then hang
      else deleted (record d { mutex = true }) slots (take_thread n d.thread_list)
    else done (err einval, (some d, slots))

unfoldable pub hal_thread_delete : Name → Option HalData → List Slot → Ends
hal_thread_delete n none slots = done (err einval, (none, slots))
hal_thread_delete n (some d) slots = thread_deleted n d slots

-- The loop of `hal_app_exit`: the first thread is unlinked, then freed, until none is left.
abbrev and_then :
    (HalData → List Slot → Outcome (HalData × List Slot))
    → Outcome (HalData × List Slot)
    → Outcome (HalData × List Slot)
and_then k (done (d, slots)) = k d slots
and_then k hang = hang
and_then k fault = fault

unfoldable pub free_threads : List Thread → HalData → List Slot → Outcome (HalData × List Slot)
free_threads [] d slots = done (d, slots)
free_threads (t ∷ ts) d slots =
    and_then (free_threads ts) (free_thread_struct t (record d { thread_list = ts }) slots)
