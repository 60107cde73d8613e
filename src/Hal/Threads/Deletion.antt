-- ===== src/Hal/Threads/Deletion.antt =====
-- `hal_thread_delete`: the use counts, and the mutex that it takes twice.
use mathlib.Core.Path.{subst}
use real_time_system.Common.{
  ℕ, zero, suc, ◌≡◌, ◌≢◌, ◌⊎◌, inl, inr, refl, sym, ap, ◌∙◌, Bool, true, false, Option, none, some,
  List, ◌∷◌, if◌then◌else◌, arith, einval, eperm, Errno, Result, ok, err, Outcome, done, hang,
  fault,
}
use real_time_system.Common.Names.{Name}
use real_time_system.Rtapi.Task.{Slot, task_pause, task_delete}
use real_time_system.Rtapi.Task.Started.{AllStarted, Returns, delete-Returns, pause-AllStarted}
use real_time_system.Common.Int.{ℤ, pos, negsuc}
use real_time_system.Hal.Data.{HalState, HalData, Thread, hal_lock_config}
use real_time_system.Hal.Calls.{is_locked}
use real_time_system.Hal.Comps.{hal_exit, is_destroyed}
use real_time_system.Hal.Mounting.Users.{IsCounted, AreCounted}
use real_time_system.Hal.Threads.{
  Ends, freed, free_thread_struct, take_thread, unlocked_at, unlinked, deleted, is_up,
  exit_component, hal_thread_delete,
}
use real_time_system.Hal.Threads.Counts.{
  recount, free_entries-running, free_entries-threads, calls_of-take_thread,
  entries_freed-IsCounted,
}

-- The call returns with the mutex free and exact use counts: after 0 the list has lost the first thread
-- with the name, and no thread runs its functions; after an error nothing has changed. It hangs only where
-- that thread has a pseudo component.
abbrev pub EndsCounted : Name → HalData → Ends → Type 0
EndsCounted n d (done (ok r, (some d1, slots))) =
    (d1.mutex ≡ false)
    × IsCounted d1
    × (d1.threads_running ≡ 0)
    × ((t : Thread) × (take_thread n d.thread_list ≡ some (t, d1.thread_list))
        × (t.comp_id ≡ pos 0))
EndsCounted n d (done (err e, (some d1, slots))) = d1 ≡ d
EndsCounted n d (done (r, (none, slots))) = ⊥
EndsCounted n d hang =
    (t : Thread) × (ts : List Thread) × (take_thread n d.thread_list ≡ some (t, ts))
    × (t.comp_id ≢ pos 0)
EndsCounted n d fault = ⊥

freed-EndsCounted :
    (n : Name) (d0 : HalData) (t u : Thread) (d : HalData) (o : Outcome (Result ℕ × List Slot))
    → Returns o
    → AreCounted (t ∷ d.thread_list) d.funct_list
    → d.threads_running ≡ 0
    → take_thread n d0.thread_list ≡ some (u, d.thread_list)
    → u.comp_id ≡ pos 0
    → EndsCounted n d0 (unlocked_at (freed t d o))
freed-EndsCounted n d0 t u d (done (r, slots)) a c z q w = (
  refl,
  entries_freed-IsCounted t d c,
  free_entries-running t.funct_list d ∙ z,
  (u, q ∙ ap (λ ts. some (u, ts)) (sym (free_entries-threads t.funct_list d)), w),
)
freed-EndsCounted n d0 t u d hang a c z q w = absurd a
freed-EndsCounted n d0 t u d fault a c z q w = a

unlinked-EndsCounted :
    (n : Name) (d0 : HalData) (t : Thread) (ts : List Thread) (d : HalData) (slots : List Slot)
    → AllStarted slots
    → AreCounted (t ∷ ts) d.funct_list
    → take_thread n d0.thread_list ≡ some (t, ts)
    → t.comp_id ≡ pos 0
    → EndsCounted n d0 (unlinked t ts slots (done (ok 0, some d)))
unfolding free_thread_struct
unlinked-EndsCounted n d0 t ts d slots a c q w =
    let paused = (task_pause slots (pos t.task_id)).1 in
    freed-EndsCounted n d0 (record t { comp_id = pos 0 }) t
      (record d { thread_list = ts; threads_running = 0 }) (task_delete paused (pos t.task_id))
      (delete-Returns paused (pos t.task_id) (pause-AllStarted slots (pos t.task_id) a)) c refl q w

-- The mutex is taken, so the exit of the pseudo component spins.
exit_hangs :
    (id : ℤ) (d : HalData)
    → d.mutex ≡ true
    → is_destroyed d.state ≡ false
    → exit_component id (some d) ≡ hang
unfolding hal_exit
exit_hangs (pos id) d m s = rw (m, s) refl
exit_hangs (negsuc n) d m s = rw (m, s) refl

up_undestroyed : (s : HalState) → is_up s ≡ true → is_destroyed s ≡ false
up_undestroyed s h = ground arith

deleted_hangs :
    (d : HalData) (slots : List Slot) (t : Thread) (ts : List Thread)
    → d.mutex ≡ true
    → is_up d.state ≡ true
    → t.comp_id ≢ pos 0
    → deleted d slots (some (t, ts)) ≡ hang
deleted_hangs d slots t ts m u ne =
    rw (exit_hangs t.comp_id d m (up_undestroyed d.state u), unlinked) (ground (arith, ne))

-- On an unlocked HAL that is ACTIVE or RUNNING, with the mutex free, `hal_thread_delete` of a thread
-- that has a pseudo component never returns: `hal_exit` asks for the mutex that the call holds.
pub delete_hangs :
    (n : Name) (d : HalData) (slots : List Slot) (t : Thread) (ts : List Thread)
    → is_locked hal_lock_config d ≡ false
    → is_up d.state ≡ true
    → d.mutex ≡ false
    → take_thread n d.thread_list ≡ some (t, ts)
    → t.comp_id ≢ pos 0
    → hal_thread_delete n (some d) slots ≡ hang
unfolding hal_thread_delete
delete_hangs n d slots t ts l u m q ne =
    rw (l, if◌then◌else◌)
      (rw (u, m, if◌then◌else◌)
        (rw (q, deleted) (deleted_hangs (record d { mutex = true }) slots t ts refl u ne)))

-- A guard of the call.
EndsCounted-if :
    (n : Name) (d : HalData) (slots : List Slot) (c : Bool) (e : Errno) (o : Ends)
    → EndsCounted n d o
    → EndsCounted n d (if c then done (err e, (some d, slots)) else o)
EndsCounted-if n d slots true e o x = refl
EndsCounted-if n d slots false e o x = x

zero_or_not : (z : ℤ) → (z ≡ pos 0) ⊎ (z ≢ pos 0)
zero_or_not (pos zero) = inl refl
zero_or_not (pos (suc n)) = inr (λ e. cc e)
zero_or_not (negsuc n) = inr (λ e. cc e)

owned-EndsCounted :
    (n : Name) (d : HalData) (slots : List Slot) (t : Thread) (ts : List Thread)
    → AllStarted slots
    → is_up d.state ≡ true
    → IsCounted d
    → take_thread n d.thread_list ≡ some (t, ts)
    → EndsCounted n d (deleted (record d { mutex = true }) slots (some (t, ts)))
owned-EndsCounted n d slots t ts a u c q = elim (zero_or_not t.comp_id) [
  | inl w ↦
      rw (w, if◌then◌else◌)
        (unlinked-EndsCounted n d t ts (record d { mutex = true }) slots a
          (recount d.thread_list (t ∷ ts) d.funct_list
            (λ off _. calls_of-take_thread off n d.thread_list ts t q) c)
          q w)
  | inr w ↦
      subst (EndsCounted n d) (sym (deleted_hangs (record d { mutex = true }) slots t ts refl u w))
        (t, ts, q, w)
]

deleted-EndsCounted :
    (n : Name) (d : HalData) (slots : List Slot) (o : Option (Thread × List Thread))
    → AllStarted slots
    → is_up d.state ≡ true
    → d.mutex ≡ false
    → IsCounted d
    → take_thread n d.thread_list ≡ o
    → EndsCounted n d (deleted (record d { mutex = true }) slots o)
deleted-EndsCounted n d slots none a u m c q = ap (λ b. record d { mutex = b }) (sym m)
deleted-EndsCounted n d slots (some (t, ts)) a u m c q = owned-EndsCounted n d slots t ts a u c q

-- The mutex can be taken.
opened-EndsCounted :
    (n : Name) (d : HalData) (b : Bool) (o : Ends)
    → b ≡ false
    → EndsCounted n d o
    → EndsCounted n d (if b then hang else o)
opened-EndsCounted n d true o e x = absurd (cc e)
opened-EndsCounted n d false o e x = x

up-EndsCounted :
    (n : Name) (d : HalData) (slots : List Slot) (u : Bool)
    → AllStarted slots
    → is_up d.state ≡ u
    → d.mutex ≡ false
    → IsCounted d
    → EndsCounted n d (
        if u
        then if d.mutex
          then hang
          else deleted (record d { mutex = true }) slots (take_thread n d.thread_list)
        else done (err einval, (some d, slots)))
up-EndsCounted n d slots true a u m c =
    opened-EndsCounted n d d.mutex _ m
      (deleted-EndsCounted n d slots (take_thread n d.thread_list) a u m c refl)
up-EndsCounted n d slots false a u m c = refl

-- With the mutex free, exact use counts and every task in the table started, `hal_thread_delete`, whatever
-- the name and the threads, is never undefined. After 0 the list has lost the first thread with the name,
-- which had no pseudo component, the mutex is free, the use counts are exact and `threads_running` is 0.
-- After an error nothing has changed. It hangs only where the first thread with the name has a pseudo
-- component, as every thread has that `hal_create_thread` has completed.
pub delete-EndsCounted :
    (n : Name) (d : HalData) (slots : List Slot)
    → AllStarted slots
    → d.mutex ≡ false
    → IsCounted d
    → EndsCounted n d (hal_thread_delete n (some d) slots)
unfolding hal_thread_delete
delete-EndsCounted n d slots a m c =
    EndsCounted-if n d slots (is_locked hal_lock_config d) eperm _
      (up-EndsCounted n d slots (is_up d.state) a refl m c)
