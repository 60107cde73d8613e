-- ===== src/Rtapi/Task/Lifecycle.antt =====
-- The life cycle of the tasks in the table, over any call of the control side.
use mathlib.Core.Path.{subst}
use real_time_system.Common.{ℕ, ◌≡◌, List, get_or, Outcome, done}
use real_time_system.Common.Int.{ℤ}
use real_time_system.Rtapi.Task.{
  Slot, null, Request, ThreadOs, task_new, start_task, task_start, pause_task, task_pause,
  resume_task, task_resume, task_delete,
}
use real_time_system.Rtapi.Task.Slots.{
  state_at, Moves, IsSound, GoodAll, table, start-Good, pause-Good, resume-Good, on_task-Good,
  new-Good, Outcome-done, task_delete-Good,
}

pub data Call : Type 0 where
  news : (highest lowest : ℤ) (pid : ℕ) → Request → Call
  starts : ThreadOs → ℤ → ℕ → Call
  pauses resumes deletes : ℤ → Call

unfoldable pub step : List Slot → Call → Outcome (List Slot)
step slots (news highest lowest pid r) = done (task_new highest lowest pid r slots).1
step slots (starts sys id period) = done (task_start sys slots id period).1
step slots (pauses id) = done (task_pause slots id).1
step slots (resumes id) = done (task_resume slots id).1
step slots (deletes id) = table (task_delete slots id)

-- The table is sound in every slot.
abbrev pub AllSound : List Slot → Type 0
AllSound slots = (k : ℕ) → IsSound (get_or slots k null)

step-Good :
    (slots slots' : List Slot) (c : Call)
    → AllSound slots
    → step slots c ≡ done slots'
    → GoodAll slots slots'
unfolding step task_start task_pause task_resume
step-Good slots slots' (news highest lowest pid r) v e =
    subst (GoodAll slots) (Outcome-done e) (new-Good highest lowest pid r slots)
step-Good slots slots' (starts sys id period) v e =
    subst (GoodAll slots) (Outcome-done e)
      (on_task-Good (start_task sys period) slots id (start-Good sys period))
step-Good slots slots' (pauses id) v e =
    subst (GoodAll slots) (Outcome-done e) (on_task-Good pause_task slots id pause-Good)
step-Good slots slots' (resumes id) v e =
    subst (GoodAll slots) (Outcome-done e) (on_task-Good resume_task slots id resume-Good)
step-Good slots slots' (deletes id) v e = task_delete-Good slots slots' id v e

-- A call that returns, on a sound table, takes every slot along an edge of the diagram or leaves
-- its state alone.
pub step-Moves :
    (slots slots' : List Slot) (c : Call)
    → AllSound slots
    → step slots c ≡ done slots'
    → (k : ℕ) → Moves (state_at slots k) (state_at slots' k)
step-Moves slots slots' c v e k = (step-Good slots slots' c v e k).0

-- Such a call keeps the table sound: a task that runs or is paused has a thread, and one that is
-- only allocated has none.
pub step-AllSound :
    (slots slots' : List Slot) (c : Call)
    → AllSound slots
    → step slots c ≡ done slots'
    → AllSound slots'
step-AllSound slots slots' c v e k = (step-Good slots slots' c v e k).1 (v k)
