-- ===== src/Hal/Threads/Counts.antt =====
-- The use counts when the entries of threads are freed.
use mathlib.Core.Path.{subst}
use real_time_system.Common.{
  ℕ, ◌<◌, ◌≡◌, inl, inr, refl, ◌∙◌, Bool-cases, Option-cases, some, List, [], ◌∷◌, map, ltb,
  if◌then◌else◌, arith, Result, Outcome, done, hang, fault,
}
use real_time_system.Common.Names.{Name}
use real_time_system.Rtapi.Task.{Slot, task_pause, task_delete}
use real_time_system.Rtapi.Task.Started.{AllStarted, Returns, delete-Returns, pause-AllStarted}
use real_time_system.Common.Int.{pos}
use real_time_system.Hal.Data.{HalData, Thread, Funct, Entry}
use real_time_system.Hal.Structs.{free_entries, free_funct_entry_struct, drop_user}
use real_time_system.Hal.Mounting.Users.{IsCounted, AreCounted, AreCounted-map, calls_of}
use real_time_system.Hal.Threads.{
  entries_freed, freed, free_thread_struct, take_thread, free_threads, and_then,
}

pub recount :
    (ts ts' : List Thread) (fs : List Funct)
    → ((off : ℕ) → 0 < off → calls_of off ts ≡ calls_of off ts')
    → AreCounted ts fs
    → AreCounted ts' fs
recount ts ts' [] h c = tt
recount ts ts' (f ∷ fs) h ((b, u), c) = ((b, u ∙ h f.off b), recount ts ts' fs h c)

abbrev with_entries : Thread → List Entry → Thread
with_entries t es = record t { funct_list = es }

drop-AreCounted :
    (t : Thread) (e : Entry) (es : List Entry) (ts : List Thread) (fs : List Funct)
    → AreCounted (record t { funct_list = e ∷ es } ∷ ts) fs
    → AreCounted
        (record t { funct_list = es } ∷ ts)
        (if ltb 0 e.funct_ptr then map (drop_user e.funct_ptr) fs else fs)
drop-AreCounted t e es ts fs c = elim (Bool-cases (ltb 0 e.funct_ptr)) [
  | inl y ↦
      rw (y, if◌then◌else◌)
        (AreCounted-map (drop_user e.funct_ptr) (with_entries t (e ∷ es) ∷ ts)
          (with_entries t es ∷ ts) fs (λ f a b. ground (arith, a, b, y)) c)
  | inr n ↦
      rw (n, if◌then◌else◌)
        (recount (with_entries t (e ∷ es) ∷ ts) (with_entries t es ∷ ts) fs
          (λ off b. ground (arith, b, n)) c)
]

free_entries-AreCounted :
    (t : Thread) (es : List Entry) (d : HalData)
    → AreCounted (record t { funct_list = es } ∷ d.thread_list) d.funct_list
    → IsCounted (free_entries es d)
unfolding free_entries free_funct_entry_struct
free_entries-AreCounted t [] d c =
    recount (with_entries t [] ∷ d.thread_list) d.thread_list d.funct_list (λ off b. omega arith) c
free_entries-AreCounted t (e ∷ es) d c =
    free_entries-AreCounted t es (free_funct_entry_struct e d)
      (drop-AreCounted t e es d.thread_list d.funct_list c)

pub calls_of-take_thread :
    (off : ℕ) (n : Name) (ts rest : List Thread) (t : Thread)
    → take_thread n ts ≡ some (t, rest)
    → calls_of off ts ≡ calls_of off (t ∷ rest)
unfolding take_thread
calls_of-take_thread off n [] rest t e = cc
calls_of-take_thread off n (u ∷ ts) rest t e = elim (Option-cases (take_thread n ts)) [
  | inl q ↦ ground arith
  | inr ((v, vs), q) ↦ ground (arith, calls_of-take_thread off n ts vs v q)
]

-- The loop returns, without threads and with exact counts.
abbrev pub Counted : Outcome (HalData × List Slot) → Type 0
Counted (done (d, slots)) = (d.thread_list ≡ []) × IsCounted d
Counted hang = ⊥
Counted fault = ⊥

pub entries_freed-IsCounted :
    (t : Thread) (d : HalData)
    → AreCounted (t ∷ d.thread_list) d.funct_list
    → IsCounted (entries_freed t d)
entries_freed-IsCounted t d c = free_entries-AreCounted t t.funct_list d c

pub free_entries-threads :
    (es : List Entry) (d : HalData) → (free_entries es d).thread_list ≡ d.thread_list
unfolding free_entries free_funct_entry_struct
free_entries-threads [] d = refl
free_entries-threads (e ∷ es) d = free_entries-threads es (free_funct_entry_struct e d)

pub free_entries-running :
    (es : List Entry) (d : HalData) → (free_entries es d).threads_running ≡ d.threads_running
unfolding free_entries free_funct_entry_struct
free_entries-running [] d = refl
free_entries-running (e ∷ es) d = free_entries-running es (free_funct_entry_struct e d)

freed-Counted :
    (t : Thread) (ts : List Thread) (d : HalData) (o : Outcome (Result ℕ × List Slot))
    → Returns o
    → d.thread_list ≡ ts
    → AreCounted (t ∷ ts) d.funct_list
    → ((d' : HalData) (slots : List Slot)
        → AllStarted slots
        → d'.thread_list ≡ ts
        → IsCounted d'
        → Counted (free_threads ts d' slots))
    → Counted (and_then (free_threads ts) (freed t d o))
freed-Counted t ts d (done (r, slots)) a q c ih =
    ih (entries_freed t d) slots a (free_entries-threads t.funct_list d ∙ q)
      (entries_freed-IsCounted t d (rw q c))
freed-Counted t ts d hang a q c ih = a
freed-Counted t ts d fault a q c ih = a

-- With exact use counts, and every task in the table started, the loop of `hal_app_exit` over the
-- threads returns: no thread is left, and the use counts are exact again, all 0.
pub free_threads-Counted :
    (ts : List Thread) (d : HalData) (slots : List Slot)
    → AllStarted slots
    → d.thread_list ≡ ts
    → IsCounted d
    → Counted (free_threads ts d slots)
unfolding free_threads free_thread_struct
free_threads-Counted [] d slots a q c = (q, c)
free_threads-Counted (t ∷ ts) d slots a q c =
    let paused = (task_pause slots (pos t.task_id)).1 in
    freed-Counted t ts (record d { thread_list = ts; threads_running = 0 })
      (task_delete paused (pos t.task_id))
      (delete-Returns paused (pos t.task_id) (pause-AllStarted slots (pos t.task_id) a)) refl
      (subst (λ us. AreCounted us d.funct_list) q c) (free_threads-Counted ts)
