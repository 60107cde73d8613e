-- ===== src/Hal/Threads/Create/Running.antt =====
-- The thread that `hal_create_thread` puts in the list, and its task.
use real_time_system.Common.{
  ℕ, ◌≡◌, refl, ◌∙◌, ap, Bool, true, false, Option, none, some, List, ◌∷◌, ltb, ◌==◌, if◌then◌else◌,
  length, einval, eperm, Result, ok, err, Outcome, done, hang, fault,
}
use real_time_system.Common.Int.{ℤ, pos}
use real_time_system.Rtapi.Task.{Task, Slot, running, task_new, task_start, task_delete, get_task}
use real_time_system.Rtapi.Task.Starting.{start-new}
use real_time_system.Hal.Data.{HalData, Thread, hal_name_len, hal_lock_config}
use real_time_system.Hal.Sorted.{find_by_name}
use real_time_system.Hal.Structs.{alloc_thread_struct}
use real_time_system.Hal.Structs.Same.{alloc_thread_threads}
use real_time_system.Hal.Calls.{is_locked}
use real_time_system.Hal.Registry.{stored}
use real_time_system.Hal.Threads.{free_thread_struct}
use real_time_system.Hal.Threads.Create.{
  Machine, Env, Asked, Answer, rolled_back, dropped, linked, tasked, request, named, timed,
  run_task, clocked, allocated, unless_named, back, link_thread,
}

-- The task that runs `thread_task` for the thread.
abbrev pub RunsFor : Env → Thread → Task → Type 0
RunsFor env t k =
    (k.state ≡ running)
    × (k.thr ≡ some env.thread_os.thread)
    × (k.period ≡ t.period)
    × (k.taskcode ≡ env.thread_task)
    × (k.arg ≡ t.off)
    × (k.prio ≡ t.priority)

-- A thread as it was asked for stands in front of the old ones, and its task runs.
abbrev pub IsLinked : Env → Asked → List Thread → ℕ → Machine → Type 0
IsLinked env x ts off m =
    (d : HalData) × (t : Thread) × (k : Task) × (m.hal ≡ some d)
    × (d.mutex ≡ false)
    × (d.thread_list ≡ t ∷ ts)
    × (t.off ≡ off)
    × (t.name ≡ stored x.name)
    × (t.period ≡ x.period_nsec)
    × (t.priority ≡ x.priority)
    × (get_task m.slots t.task_id ≡ some k)
    × RunsFor env t k

abbrev pub Links : Env → Asked → List Thread → Answer → Type 0
Links env x ts (done (ok off, m)) = IsLinked env x ts off m
Links env x ts _ = Unit

module _ (env : Env) (x : Asked) (ts : List Thread) where
  Links-if :
      (b : Bool) (a o : Answer)
      → Links env x ts a
      → Links env x ts o
      → Links env x ts (if b then a else o)
  Links-if true a o k l = k
  Links-if false a o k l = l

  rolled_back-Links :
      (period : ℤ) (o : Outcome (HalData × List Slot)) → Links env x ts (rolled_back period o)
  rolled_back-Links period (done (d, slots)) = tt
  rolled_back-Links period hang = tt
  rolled_back-Links period fault = tt

  dropped-Links :
      (period : ℤ) (t : Thread) (d : HalData) (o : Outcome (Result ℕ × List Slot))
      → Links env x ts (dropped period t d o)
  dropped-Links period t d (done (r, slots)) =
      rolled_back-Links period (free_thread_struct t d slots)
  dropped-Links period t d hang = tt
  dropped-Links period t d fault = tt

  linked-Links :
      (period : ℤ) (t : Thread) (d : HalData) (slots s1 s2 : List Slot) (r : Result ℕ)
      → d.thread_list ≡ ts
      → t.name ≡ stored x.name
      → t.period ≡ x.period_nsec
      → t.priority ≡ x.priority
      → task_new env.highest env.lowest env.pid (request env t) slots ≡ (ok t.task_id, s1)
      → task_start env.thread_os s1 (pos t.task_id) t.period ≡ (r, s2)
      → Links env x ts (linked period t d (r, s2))
  linked-Links period t d slots s1 s2 (ok k) q n p a e f =
      let w =
        start-new env.thread_os env.highest env.lowest env.pid (request env t) slots s1 s2 t.task_id
          k t.period e f in
      (
        record d { mutex = false; thread_list = t ∷ d.thread_list },
        t,
        w.0,
        refl,
        refl,
        ap (λ l. t ∷ l) q,
        refl,
        n,
        p,
        a,
        w.1,
        w.2,
      )
  linked-Links period t d slots s1 s2 (err e) q n p a g f =
      dropped-Links period t d (task_delete s2 (pos t.task_id))

  tasked-Links :
      (period : ℤ) (t : Thread) (d : HalData) (slots s1 : List Slot) (r : Result ℕ)
      → d.thread_list ≡ ts
      → t.name ≡ stored x.name
      → t.period ≡ x.period_nsec
      → t.priority ≡ x.priority
      → task_new env.highest env.lowest env.pid (request env t) slots ≡ (r, s1)
      → Links env x ts (tasked env period t d (r, s1))
  tasked-Links period t d slots s1 (err e) q n p a g =
      rolled_back-Links period (free_thread_struct t d s1)
  tasked-Links period t d slots s1 (ok k) q n p a g =
      linked-Links period (record t { task_id = k }) d slots s1 _ _ q n p a g refl

  run_task-Links :
      (t : Thread) (d : HalData) (slots : List Slot) (c : Bool) (period : ℤ)
      → d.thread_list ≡ ts
      → Links env x ts (run_task env x t d slots (c, period))
  run_task-Links t d slots false period q =
      rolled_back-Links period (free_thread_struct (named x t) d slots)
  run_task-Links t d slots true period q =
      tasked-Links period (timed x t) d slots _ _ q refl refl refl refl

  allocated-Links :
      (slots : List Slot) (period : ℤ) (o : Option Thread) (d : HalData)
      → d.thread_list ≡ ts
      → Links env x ts (allocated env x slots period (o, d))
  allocated-Links slots period none d q = tt
  allocated-Links slots period (some t) d q =
      run_task-Links t d slots (clocked x.period_nsec d.thread_list period).0
        (clocked x.period_nsec d.thread_list period).1 q

  unless_named-Links :
      (d : HalData) (slots : List Slot) (period : ℤ) (o : Option Thread)
      → d.thread_list ≡ ts
      → Links env x ts (unless_named env x d slots period o)
  unless_named-Links d slots period (some t) q = tt
  unless_named-Links d slots period none q =
      allocated-Links slots period (alloc_thread_struct env.sizes d).0
        (alloc_thread_struct env.sizes d).1
        (alloc_thread_threads env.sizes d.thread_free d refl ∙ q)

-- If the part of `hal_create_thread` under the mutex returns a thread, the mutex is free, and that thread
-- stands in front of the old ones with the name, period and priority asked for. Its task is in the table
-- with a thread of the system, RUNNING, with this period and priority, and runs `thread_task` on it.
pub link-Links :
    (env : Env) (x : Asked) (d : HalData) (slots : List Slot) (period : ℤ)
    → Links env x d.thread_list
        (link_thread env x (record { hal = some d; slots = slots; period = period }))
unfolding link_thread
link-Links env x d slots period =
    let L = Links-if env x d.thread_list in
    L (x.period_nsec == 0) (back (err einval) d slots period) _ tt (
      L (ltb hal_name_len (length x.name)) (back (err einval) d slots period) _ tt (
        L (is_locked hal_lock_config d) (back (err eperm) d slots period) _ tt (
          L d.mutex hang _ tt (
            unless_named-Links env x d.thread_list (record d { mutex = true }) slots period
              (find_by_name (λ (t : Thread). t.name) x.name d.thread_list) refl))))
