-- ===== src/Rtapi/Task/Started.antt =====
-- rtapi/uspace_rtapi_app.cpp: `task_pause` and `task_delete` on a table in which every task has its
-- thread.
use real_time_system.Common.{
  ℕ, zero, suc, ◌≡◌, inl, inr, Option, Option-cases, none, some, List, [], ◌∷◌, get_elem?, set,
  replicate, arith, Result, Outcome, done, hang, fault,
}
use real_time_system.Common.Int.{ℤ}
use real_time_system.Rtapi.Task.{
  no_tasks, max_tasks, Task, Slot, null, magic_init, task, task_index, get_task, on_task,
  pause_task, task_pause, join, delete_task, written, task_delete,
}
use real_time_system.Rtapi.Task.Slots.{get_task_slot}

abbrev IsSome : Option ℕ → Type 0
IsSome none = ⊥
IsSome (some x) = Unit

abbrev pub IsStarted : Slot → Type 0
IsStarted null = Unit
IsStarted magic_init = Unit
IsStarted (task t) = IsSome t.thr

abbrev pub AllStarted : List Slot → Type 0
AllStarted [] = Unit
AllStarted (s ∷ slots) = IsStarted s × AllStarted slots

set-AllStarted :
    (slots : List Slot) (n : ℕ) (s : Slot)
    → IsStarted s
    → AllStarted slots
    → AllStarted (set slots n s)
set-AllStarted [] n s h a = tt
set-AllStarted (x ∷ slots) zero s h a = (h, a.1)
set-AllStarted (x ∷ slots) (suc n) s h a = (a.0, set-AllStarted slots n s h a.1)

IsStarted-at :
    (slots : List Slot) (n : ℕ) (s : Slot)
    → get_elem? slots n ≡ some s
    → AllStarted slots
    → IsStarted s
IsStarted-at [] n s e a = cc
IsStarted-at (x ∷ slots) zero s e a = ground (arith, a.0)
IsStarted-at (x ∷ slots) (suc n) s e a = IsStarted-at slots n s e a.1

pause-IsStarted : (t : Task) → IsStarted (task t) → IsStarted (pause_task t).1
unfolding pause_task
pause-IsStarted t h = ground (arith, h)

pub pause-AllStarted :
    (slots : List Slot) (id : ℤ) → AllStarted slots → AllStarted (task_pause slots id).1
unfolding task_pause on_task
pause-AllStarted slots id a = elim (Option-cases (task_index id)) [
  | inl e ↦ rw (e, on_task) a
  | inr (n, e) ↦
      rw (e, on_task)
        (elim (Option-cases (get_task slots n)) [
          | inl d ↦ rw d a
          | inr (t, d) ↦ rw d (
              set-AllStarted slots n (pause_task t).1
                (pause-IsStarted t (IsStarted-at slots n (task t) (get_task_slot slots n d).0 a)) a)
        ])
]

-- The call returns, and the table keeps its property.
abbrev pub Returns : Outcome (Result ℕ × List Slot) → Type 0
Returns (done (r, slots)) = AllStarted slots
Returns hang = ⊥
Returns fault = ⊥

abbrev Ends : Outcome (Result ℕ × Slot) → Type 0
Ends (done (r, s)) = IsStarted s
Ends hang = ⊥
Ends fault = ⊥

delete-Ends : (t : Task) → IsStarted (task t) → Ends (delete_task t)
unfolding delete_task join
delete-Ends t h = ground (arith, h)

written-Returns :
    (slots : List Slot) (n : ℕ) (o : Outcome (Result ℕ × Slot))
    → Ends o
    → AllStarted slots
    → Returns (written slots n o)
written-Returns slots n (done (r, s)) h a = set-AllStarted slots n s h a
written-Returns slots n hang h a = h
written-Returns slots n fault h a = h

pub delete-Returns :
    (slots : List Slot) (id : ℤ) → AllStarted slots → Returns (task_delete slots id)
unfolding task_delete
delete-Returns slots id a = elim (Option-cases (task_index id)) [
  | inl e ↦ rw (e, task_delete) a
  | inr (n, e) ↦
      rw (e, task_delete)
        (elim (Option-cases (get_task slots n)) [
          | inl d ↦ rw d a
          | inr (t, d) ↦ rw d (
              written-Returns slots n (delete_task t)
                (delete-Ends t (IsStarted-at slots n (task t) (get_task_slot slots n d).0 a)) a)
        ])
]

pub none_from : (n : ℕ) → AllStarted (replicate n null)
none_from zero = tt
none_from (suc n) = (tt, none_from n)

-- A table without tasks.
pub none_started : AllStarted no_tasks
none_started = none_from max_tasks
