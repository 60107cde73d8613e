-- ===== src/Rtapi/Task/Slots.antt =====
-- The states of a task and the edges between them, as the diagram in rtapi/rtapi_uspace.h draws them,
-- and what each call does to the slots of the table.
use mathlib.Core.Path.{subst}
use real_time_system.Common.{
  ℕ, ◌-◌, ◌≡◌, ◌⊎◌, inl, inr, refl, sym, ap, none, some, List, [], ◌∷◌, arith, ◌||◌, Bool-cases,
  Option-cases, get_elem?, get_or, get_or-set, get_or-eq, set, Result, Outcome, done, hang, fault,
}
use real_time_system.Common.Int.{ℤ, ltb_ℤ}
use real_time_system.Rtapi.Task.{
  Task, TaskState, empty, init, allocated, running, paused, Slot, null, magic_init, task,
  task_magic, Request, ThreadOs, allocate_task_id, task_new, get_task, on_task, written, task_index,
  start_task, pause_task, resume_task, delete_task, task_delete, join,
}

abbrev pub slot_state : Slot → TaskState
slot_state null = empty
slot_state magic_init = init
slot_state (task t) = t.state

-- The state of slot `k`; a slot out of range is empty.
abbrev pub state_at : List Slot → ℕ → TaskState
state_at slots k = slot_state (get_or slots k null)

-- The edges of the diagram that a call of the control side takes.
infix 40 ◌⟶◌
pub data ◌⟶◌ : TaskState → TaskState → Type 0 where
  allocate : empty ⟶ allocated
  launch : allocated ⟶ running
  halt : running ⟶ paused
  delete_running : running ⟶ empty
  delete_paused : paused ⟶ empty

-- A slot keeps its state or takes an edge.
abbrev pub Moves : TaskState → TaskState → Type 0
Moves s t = (s ≡ t) ⊎ (s ⟶ t)

-- A task that runs or is paused has a thread, and one that is only allocated has none; no task in
-- the table is in another state.
abbrev pub HasThread : Task → Type 0
HasThread t =
    ((t.state ≡ allocated) × (t.thr ≡ none))
    ⊎ ((x : ℕ) × (t.thr ≡ some x) × ((t.state ≡ running) ⊎ (t.state ≡ paused)))

abbrev pub IsSound : Slot → Type 0
IsSound null = Unit
IsSound magic_init = Unit
IsSound (task t) = (t.magic ≡ task_magic) × HasThread t

abbrev pub table {ℓ} : {A : Type ℓ} → Outcome (Result ℕ × A) → Outcome A
table (done (r, a)) = done a
table hang = hang
table fault = fault

-- What one change of a slot has to respect.
abbrev pub Good : Slot → Slot → Type 0
Good s s' = Moves (slot_state s) (slot_state s') × (IsSound s → IsSound s')

pub start-Good :
    (sys : ThreadOs) (period : ℕ) (t : Task) → Good (task t) (start_task sys period t).1
unfolding start_task
start-Good sys period t = (grind (arith, launch), ground arith)

pub pause-Good : (t : Task) → Good (task t) (pause_task t).1
unfolding pause_task
pause-Good t = (grind (arith, halt), ground arith)

pub resume-Good : (t : Task) → Good (task t) (resume_task t).1
unfolding resume_task
resume-Good t = (ground arith, ground arith)

-- What a whole call has to respect, slot by slot.
abbrev pub GoodAll : List Slot → List Slot → Type 0
GoodAll slots slots' = (k : ℕ) → Good (get_or slots k null) (get_or slots' k null)

same-Good : (s s' : Slot) → s' ≡ s → Good s s'
same-Good s s' e = (inl (ap slot_state (sym e)), rw e (λ v. v))

set-Good :
    (slots : List Slot) (n : ℕ) (s s' : Slot)
    → get_elem? slots n ≡ some s
    → Good s s'
    → GoodAll slots (set slots n s')
set-Good slots n s s' here g k = elim (get_or-set slots n s' k null) [
  | inl e ↦ same-Good (get_or slots k null) _ e
  | inr (at, e) ↦ rw (at, get_or-eq slots n null here, rw at at e) g
]

pub get_task_slot :
    (slots : List Slot) (n : ℕ) {t : Task}
    → get_task slots n ≡ some t
    → (get_elem? slots n ≡ some (task t)) × (t.magic ≡ task_magic)
unfolding get_task
get_task_slot slots n e = (ground arith, ground arith)

pub on_task-Good :
    (f : Task → Result ℕ × Slot) (slots : List Slot) (id : ℤ)
    → ((t : Task) → Good (task t) (f t).1)
    → GoodAll slots (on_task f slots id).1
unfolding on_task
on_task-Good f slots id g = elim (Option-cases (task_index id)) [
  | inl e ↦ rw (e, on_task) (λ k. same-Good _ _ refl)
  | inr (n, e) ↦
      rw (e, on_task)
        (elim (Option-cases (get_task slots n)) [
          | inl d ↦ rw d (λ k. same-Good _ _ refl)
          | inr (t, d) ↦ rw d (set-Good slots n (task t) (f t).1 (get_task_slot slots n d).0 (g t))
        ])
]

pub allocate_slot :
    (slots : List Slot) (n : ℕ) → allocate_task_id slots ≡ some n → get_elem? slots n ≡ some null
unfolding allocate_task_id
allocate_slot [] n e = cc
allocate_slot (null ∷ slots) n e = ground arith
allocate_slot (magic_init ∷ slots) n e = ground (arith, allocate_slot slots (n - 1))
allocate_slot (task t ∷ slots) n e = ground (arith, allocate_slot slots (n - 1))

pub new-Good :
    (highest lowest : ℤ) (pid : ℕ) (r : Request) (slots : List Slot)
    → GoodAll slots (task_new highest lowest pid r slots).1
unfolding task_new
new-Good highest lowest pid r slots =
    elim (Bool-cases (ltb_ℤ highest r.prio || ltb_ℤ r.prio lowest)) [
      | inl e ↦ rw (e, task_new) (λ k. same-Good _ _ refl)
      | inr e ↦
          rw (e, task_new)
            (elim (Option-cases (allocate_task_id slots)) [
              | inl d ↦ rw d (λ k. same-Good _ _ refl)
              | inr (n, d) ↦ rw d (
                  set-Good slots n null _ (allocate_slot slots n d)
                    (inr allocate, λ _. (refl, inl (refl, refl))))
            ])
    ]

-- A sound task is deleted, or has no thread to join.
delete-Good :
    (t : Task) (r : Result ℕ) (s : Slot)
    → IsSound (task t)
    → delete_task t ≡ done (r, s)
    → Good (task t) s
unfolding delete_task join
delete-Good t r s v e = (grind (arith, delete_running, delete_paused), ground arith)

pub Outcome-done {ℓ} : {A : Type ℓ} {a b : A} → done a ≡ done b → a ≡ b
Outcome-done e = cc

IsSound-at :
    (slots : List Slot) (n : ℕ) {s : Slot}
    → ((k : ℕ) → IsSound (get_or slots k null))
    → get_elem? slots n ≡ some s
    → IsSound s
IsSound-at slots n v here = rw (sym (get_or-eq slots n null here)) (v n)

written-Good :
    (slots slots' : List Slot) (n : ℕ) (t : Task) (o : Outcome (Result ℕ × Slot))
    → IsSound (task t)
    → get_elem? slots n ≡ some (task t)
    → delete_task t ≡ o
    → table (written slots n o) ≡ done slots'
    → GoodAll slots slots'
written-Good slots slots' n t (done (r, s)) v here e q =
    subst (GoodAll slots) (Outcome-done q)
      (set-Good slots n (task t) s here (delete-Good t r s v e))
written-Good slots slots' n t hang v here e q = cc
written-Good slots slots' n t fault v here e q = cc

unchanged-Good : (slots slots' : List Slot) → done slots ≡ done slots' → GoodAll slots slots'
unchanged-Good slots slots' q = subst (GoodAll slots) (Outcome-done q) (λ k. same-Good _ _ refl)

pub task_delete-Good :
    (slots slots' : List Slot) (id : ℤ)
    → ((k : ℕ) → IsSound (get_or slots k null))
    → table (task_delete slots id) ≡ done slots'
    → GoodAll slots slots'
unfolding task_delete
task_delete-Good slots slots' id v = elim (Option-cases (task_index id)) [
  | inl e ↦ rw (e, task_delete) (unchanged-Good slots slots')
  | inr (n, e) ↦
      rw (e, task_delete)
        (elim (Option-cases (get_task slots n)) [
          | inl d ↦ rw d (unchanged-Good slots slots')
          | inr (t, d) ↦ rw d (
              written-Good slots slots' n t (delete_task t)
                (IsSound-at slots n v (get_task_slot slots n d).0) (get_task_slot slots n d).0 refl)
        ])
]
