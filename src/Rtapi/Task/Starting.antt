-- ===== src/Rtapi/Task/Starting.antt =====
-- A task that `task_new` made and `task_start` started.
use real_time_system.Common.{
  ℕ, ◌≡◌, refl, ap, ◌∙◌, inl, inr, Bool-cases, Option-cases, some, List, true, ◌||◌, get_elem?,
  get_elem?-lt, get_elem?-set_self, set, leb, arith, Result, ok, err, einval,
}
use real_time_system.Common.Int.{ℤ, pos, ltb_ℤ}
use real_time_system.Rtapi.Task.{
  Task, allocated, running, Slot, task, task_magic, max_tasks, Request, ThreadOs, new_task,
  allocate_task_id, task_new, get_task, on_task, timed, start_task, task_start,
}
use real_time_system.Rtapi.Task.Slots.{allocate_slot}

taken_slot :
    (pid : ℕ) (r : Request) (slots s1 : List Slot) (n m : ℕ)
    → allocate_task_id slots ≡ some m
    → ◌≡◌ {A = Result ℕ × List Slot} (ok m, set slots m (task (new_task pid r m))) (ok n, s1)
    → get_elem? s1 n ≡ some (task (new_task pid r n))
taken_slot pid r slots s1 n m a e = cc (
    get_elem?-set_self slots m (task (new_task pid r m))
      (get_elem?-lt slots m (allocate_slot slots m a)))

pub new_slot :
    (highest lowest : ℤ) (pid : ℕ) (r : Request) (slots s1 : List Slot) (n : ℕ)
    → task_new highest lowest pid r slots ≡ (ok n, s1)
    → get_elem? s1 n ≡ some (task (new_task pid r n))
unfolding task_new
new_slot highest lowest pid r slots s1 n e =
    elim (Bool-cases (ltb_ℤ highest r.prio || ltb_ℤ r.prio lowest)) [
      | inl b ↦ cc (rw (b, task_new) at e)
      | inr b ↦ elim (Option-cases (allocate_task_id slots)) [
        | inl d ↦ cc (rw (b, d, task_new) at e)
        | inr (m, d) ↦ taken_slot pid r slots s1 n m d (rw (b, d, task_new) at e)
      ]
    ]

-- What `task_start` makes of a new task.
abbrev pub IsStartedBy : ThreadOs → ℕ → Task → Task → Type 0
IsStartedBy sys period t t' =
    (t'.state ≡ running)
    × (t'.thr ≡ some sys.thread)
    × (t'.period ≡ period)
    × (t'.taskcode ≡ t.taskcode)
    × (t'.arg ≡ t.arg)
    × (t'.prio ≡ t.prio)

start-ok :
    (sys : ThreadOs) (period : ℕ) (t : Task) (k : ℕ) (s : Slot)
    → t.state ≡ allocated
    → t.magic ≡ task_magic
    → start_task sys period t ≡ (ok k, s)
    → (t' : Task) × (s ≡ task t') × (t'.magic ≡ task_magic) × IsStartedBy sys period t t'
unfolding start_task
start-ok sys period t k s a m e = (
  record (timed period t) { state = running; thr = some sys.thread },
  ground arith,
  m,
  (refl, refl, refl, refl, refl, refl),
)

-- The task at an index that is free to be found.
found_at :
    (slots : List Slot) (n : ℕ) (t : Task)
    → get_elem? slots n ≡ some (task t)
    → t.magic ≡ task_magic
    → get_task slots n ≡ some t
unfolding get_task
found_at slots n t e m = rw e (ground (arith, m))

on_task-at :
    (f : Task → Result ℕ × Slot) (slots s2 : List Slot) (n k : ℕ) (t : Task)
    → get_elem? slots n ≡ some (task t)
    → t.magic ≡ task_magic
    → on_task f slots (pos n) ≡ (ok k, s2)
    → (s : Slot) × (f t ≡ (ok k, s)) × (s2 ≡ set slots n s)
unfolding on_task
on_task-at f slots s2 n k t q m e = elim (Bool-cases (leb max_tasks n)) [
  | inl b ↦ cc (rw (b, on_task) at e)
  | inr b ↦
      let e1 : ◌≡◌ {A = Result ℕ × List Slot} ((f t).0, set slots n (f t).1) (ok k, s2) =
        rw (found_at slots n t q m, on_task) at (rw (b, on_task) at e) in
      ((f t).1, cc, cc)
]

pub start-new :
    (sys : ThreadOs) (highest lowest : ℤ) (pid : ℕ) (r : Request) (slots s1 s2 : List Slot)
    (n k period : ℕ)
    → task_new highest lowest pid r slots ≡ (ok n, s1)
    → task_start sys s1 (pos n) period ≡ (ok k, s2)
    → (t : Task) × (get_task s2 n ≡ some t) × IsStartedBy sys period (new_task pid r n) t
unfolding task_start
start-new sys highest lowest pid r slots s1 s2 n k period e f =
    let q = new_slot highest lowest pid r slots s1 n e in
    let o = on_task-at (start_task sys period) s1 s2 n k (new_task pid r n) q refl f in
    let w = start-ok sys period (new_task pid r n) k o.0 refl refl o.1 in
    (
      w.0,
      found_at s2 n w.0
          (ap (λ s. get_elem? s n) o.2
            ∙ get_elem?-set_self s1 n o.0 (get_elem?-lt s1 n q)
            ∙ ap some w.1)
          w.2,
      w.3,
    )

pub new_refused :
    (highest lowest : ℤ) (pid : ℕ) (r : Request) (slots : List Slot)
    → ltb_ℤ highest r.prio ≡ true
    → task_new highest lowest pid r slots ≡ (err einval, slots)
unfolding task_new
new_refused highest lowest pid r slots h = rw (h, task_new)
