-- ===== src/Hal/Threads/Create/Rollback.antt =====
-- What `hal_create_thread` undoes when the task of the new thread cannot be made.
use mathlib.Core.Path.{subst}
use real_time_system.Common.{
  ℕ, ◌≡◌, ◌≢◌, refl, sym, ◌∙◌, ap, true, false, Option, none, some, List, [], ◌∷◌, ltb, ◌==◌,
  if◌then◌else◌, length, einval, ok, err, done, hang, fault, arith, get_elem?,
}
use real_time_system.Common.Int.{ℤ, ltb_ℤ}
use real_time_system.Common.Names.{Name}
use real_time_system.Common.Runs.{after}
use real_time_system.Rtapi.Task.{Task, Slot, task, task_magic, running, get_task}
use real_time_system.Rtapi.Task.Deleting.{delete-pause}
use real_time_system.Rtapi.Task.Starting.{new_refused}
use real_time_system.Hal.Data.{HalData, Thread, hal_name_len, hal_lock_config}
use real_time_system.Hal.Sorted.{find_by_name}
use real_time_system.Hal.Structs.{alloc_thread_struct, free_entries}
use real_time_system.Hal.Structs.Same.{alloc_thread_threads, alloc_thread_empty}
use real_time_system.Hal.Calls.{is_locked}
use real_time_system.Hal.Threads.{free_thread_struct, entries_freed, freed}
use real_time_system.Hal.Threads.Create.{
  Env, Asked, Answer, rolled_back, roll_back, tasked, request, timed, run_task, clocked, allocated,
  unless_named, guarded, link_thread, hal_create_thread, after_link,
}

-- The call returns -EINVAL, the task at index 0 is gone, and no function of any thread runs any more.
abbrev pub IsSilenced : Answer → Type 0
IsSilenced (done (r, m)) =
    (d : HalData) × (r ≡ err einval)
    × (m.hal ≡ some d)
    × (d.threads_running ≡ 0)
    × (get_task m.slots 0 ≡ none)
IsSilenced hang = ⊥
IsSilenced fault = ⊥

-- The freeing of a structure with task id 0 and no entries.
freed-IsSilenced :
    (period : ℤ) (t : Thread) (d : HalData) (slots : List Slot) (k : Task) (x : ℕ)
    → t.task_id ≡ 0
    → t.funct_list ≡ []
    → get_elem? slots 0 ≡ some (task k)
    → k.magic ≡ task_magic
    → k.thr ≡ some x
    → k.state ≡ running
    → IsSilenced (roll_back period t d slots)
unfolding free_thread_struct free_entries
freed-IsSilenced period t d slots k x z e here valid thread r =
    let w = delete-pause slots 0 k x (omega arith) here valid thread r in
    rw (z, e, free_thread_struct)
      (rw (w.1, rolled_back, freed)
        (
          record (entries_freed (record t { task_id = 0; funct_list = [] })
              (record d { threads_running = 0 })) { mutex = false },
          refl,
          refl,
          refl,
          w.2,
        ))

after-IsSilenced :
    (env : Env) (n : Name) (a : Answer) → IsSilenced a → IsSilenced (after (after_link env n) a)
after-IsSilenced env n (done (ok off, m)) s = absurd (cc s.1)
after-IsSilenced env n (done (err e, m)) s = s
after-IsSilenced env n hang s = s
after-IsSilenced env n fault s = s

nonzero : (n : ℕ) → n ≢ 0 → (n == 0) ≡ false
nonzero n p = ground arith

guards_pass :
    (env : Env) (x : Asked) (d : HalData) (slots : List Slot) (period : ℤ)
    → x.period_nsec ≢ 0
    → ltb hal_name_len (length x.name) ≡ false
    → is_locked hal_lock_config d ≡ false
    → d.mutex ≡ false
    → find_by_name (λ (t : Thread). t.name) x.name d.thread_list ≡ none
    → guarded env x d slots period
      ≡ unless_named env x (record d { mutex = true }) slots period none
guards_pass env x d slots period p n l m f =
    rw (nonzero x.period_nsec p, if◌then◌else◌)
      (rw (n, if◌then◌else◌)
        (rw (l, if◌then◌else◌)
          (rw (m, if◌then◌else◌)
            (ap (unless_named env x (record d { mutex = true }) slots period) f))))

run_refused :
    (env : Env) (x : Asked) (u : Thread) (d : HalData) (slots : List Slot) (period : ℤ) (t : Thread)
    (ts us : List Thread)
    → us ≡ t ∷ ts
    → ltb_ℤ env.highest x.priority ≡ true
    → run_task env x u d slots (clocked x.period_nsec us period)
      ≡ roll_back period (timed x u) d slots
run_refused env x u d slots period t ts us q hi =
    ap (λ l. run_task env x u d slots (clocked x.period_nsec l period)) q
    ∙ ap (tasked env period (timed x u) d)
        (new_refused env.highest env.lowest env.pid (request env (timed x u)) slots hi)

allocated-IsSilenced :
    (env : Env) (x : Asked) (slots : List Slot) (period : ℤ) (o : Option Thread) (d : HalData)
    (t u : Thread) (ts : List Thread) (k : Task) (h : ℕ)
    → o ≡ some u
    → (u.task_id ≡ 0) × (u.funct_list ≡ [])
    → d.thread_list ≡ t ∷ ts
    → ltb_ℤ env.highest x.priority ≡ true
    → get_elem? slots 0 ≡ some (task k)
    → k.magic ≡ task_magic
    → k.thr ≡ some h
    → k.state ≡ running
    → IsSilenced (allocated env x slots period (o, d))
allocated-IsSilenced env x slots period o d t u ts k h a z q hi here valid thread r =
    subst (λ o. IsSilenced (allocated env x slots period (o, d))) (sym a)
      (subst IsSilenced (sym (run_refused env x u d slots period t ts d.thread_list q hi))
        (freed-IsSilenced period (timed x u) d slots k h z.0 z.1 here valid thread r))

-- On an unlocked HAL with the mutex free, and with a RUNNING task that has its thread in slot 0 of the
-- table: `hal_create_thread`, with a period that is not 0, a name of at most 47 bytes that no thread has and
-- a priority above the highest one, where a thread exists already and a structure for another can be had,
-- returns -EINVAL, and its rollback frees the new structure as if the task in slot 0 were its own. So that
-- task is gone, and `threads_running` is 0, so that no thread calls its functions any more.
pub create-refused :
    (env : Env) (x : Asked) (d : HalData) (slots : List Slot) (period : ℤ) (t : Thread)
    (ts : List Thread) (u : Thread) (k : Task) (h : ℕ)
    → x.period_nsec ≢ 0
    → ltb hal_name_len (length x.name) ≡ false
    → is_locked hal_lock_config d ≡ false
    → d.mutex ≡ false
    → find_by_name (λ (t : Thread). t.name) x.name d.thread_list ≡ none
    → (alloc_thread_struct env.sizes (record d { mutex = true })).0 ≡ some u
    → d.thread_list ≡ t ∷ ts
    → ltb_ℤ env.highest x.priority ≡ true
    → get_elem? slots 0 ≡ some (task k)
    → k.magic ≡ task_magic
    → k.thr ≡ some h
    → k.state ≡ running
    → IsSilenced (hal_create_thread env x (record { hal = some d; slots = slots; period = period }))
unfolding hal_create_thread link_thread
create-refused env x d slots period t ts u k h p n l m f a q hi here valid thread r =
    let d1 = record d { mutex = true } in
    let o = alloc_thread_struct env.sizes d1 in
    after-IsSilenced env x.name (guarded env x d slots period) (
      subst IsSilenced (sym (guards_pass env x d slots period p n l m f)) (
        allocated-IsSilenced env x slots period o.0 o.1 t u ts k h a
          (alloc_thread_empty env.sizes d.thread_free d1 u refl a)
          (alloc_thread_threads env.sizes d.thread_free d1 refl ∙ q) hi here valid thread r))
