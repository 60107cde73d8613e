-- ===== src/Rtapi/Mutex/Threads.antt =====
-- rtapi/rtapi_mutex.h: any number of threads that share one mutex word, interleaved in any order.
use mathlib.Core.Logic.{ite}
use native.Mathlib.Decide.{ℕ_discrete}
use real_time_system.Common.{ℕ, ◌≡◌, ◌≢◌, ◌⊎◌, inl, inr, refl, sym, ◌∙◌, Bool, true, false, arith}
use real_time_system.Rtapi.Mutex.{
  rtapi_mutex_try, rtapi_mutex_give, try_free, try_taken, give_taken,
}

-- Where a thread stands: outside, in the loop of `rtapi_mutex_get`, or with the mutex.
pub data Pc : Type 0 where
  outside waiting inside : Pc

pub record System : Type 0 where
  pub word : ℕ
  pub pc : ℕ → Pc

abbrev pub update : (ℕ → Pc) → ℕ → Pc → ℕ → Pc
update f i p j = ite (ℕ_discrete i j) p (f j)

-- The outcome of a test-and-set by a thread that goes to `won` if the mutex was free.
abbrev attempt : Bool × ℕ → (lost won : Pc) → ℕ × Pc
attempt (true, word) lost won = (word, lost)
attempt (false, word) lost won = (word, won)

abbrev pub moved : System → ℕ → ℕ × Pc → System
moved s i (word, p) = record { word = word; pc = update s.pc i p }

-- One step of thread `i`: it enters the loop of `rtapi_mutex_get`, makes a round of it, calls
-- `rtapi_mutex_try` once, or gives the mutex that it holds.
pub data Step (s : System) : System → Type 0 where
  call_get : (i : ℕ) → s.pc i ≡ outside → Step s (moved s i (s.word, waiting))
  round :
      (i : ℕ)
      → s.pc i ≡ waiting
      → Step s (moved s i (attempt (rtapi_mutex_try s.word) waiting inside))
  call_try :
      (i : ℕ)
      → s.pc i ≡ outside
      → Step s (moved s i (attempt (rtapi_mutex_try s.word) outside inside))
  give : (i : ℕ) → s.pc i ≡ inside → Step s (moved s i (rtapi_mutex_give s.word, outside))

abbrev pub start : System
start = record { word = 0; pc = λ _. outside }

pub data Reach : System → Type 0 where
  here : Reach start
  next : {s t : System} → Reach s → Step s t → Reach t

-- The mutex is free and nobody is inside, or it is taken and one thread is.
abbrev Free : System → Type 0
Free s = (s.word ≡ 0) × ((i : ℕ) → s.pc i ≢ inside)

abbrev Owned : ℕ → System → Type 0
Owned o s = (s.word ≡ 1) × (s.pc o ≡ inside) × ((i : ℕ) → s.pc i ≡ inside → i ≡ o)

abbrev pub Inv : System → Type 0
Inv s = Free s ⊎ ((o : ℕ) × Owned o s)

-- Thread `i` moves to a place that is not inside, and the word stays.
stay-Inv :
    (s : System) (i : ℕ) (p : Pc)
    → s.pc i ≢ inside
    → p ≢ inside
    → Inv s
    → Inv (moved s i (s.word, p))
stay-Inv s i p out out' (inl (w, none_in)) = inl (w, λ j q. ground (arith, none_in j))
stay-Inv s i p out out' (inr (o, (w, own, only))) =
    inr (o, (w, ground arith, λ j q. ground (arith, only j)))

try-Inv :
    (s : System) (i : ℕ) (p : Pc)
    → s.pc i ≢ inside
    → p ≢ inside
    → Inv s
    → Inv (moved s i (attempt (rtapi_mutex_try s.word) p inside))
try-Inv s i p out out' (inl (w, none_in)) =
    rw (w, try_free) (inr (i, (refl, ground arith, λ j q. ground (arith, none_in j))))
try-Inv s i p out out' (inr (o, (w, own, only))) =
    rw (w, try_taken) (inr (o, (refl, ground arith, λ j q. ground (arith, only j))))

Step-Inv : {s t : System} → Step s t → Inv s → Inv t
Step-Inv {s} (call_get i e) v = stay-Inv s i waiting (ground arith) (ground arith) v
Step-Inv {s} (round i e) v = try-Inv s i waiting (ground arith) (ground arith) v
Step-Inv {s} (call_try i e) v = try-Inv s i outside (ground arith) (ground arith) v
Step-Inv {s} (give i e) (inl (w, none_in)) = absurd (none_in i e)
Step-Inv {s} (give i e) (inr (o, (w, own, only))) =
    rw (w, give_taken) (inl (refl, λ j q. ground (arith, only i, only j)))

pub Reach-Inv : {s : System} → Reach s → Inv s
Reach-Inv here = inl (refl, λ i q. cc)
Reach-Inv (next r st) = Step-Inv st (Reach-Inv r)

-- With any number of threads and in any order of their steps, two threads never hold the mutex at
-- once.
pub mutual_exclusion :
    {s : System} → Reach s → (i j : ℕ) → s.pc i ≡ inside → s.pc j ≡ inside → i ≡ j
mutual_exclusion {s} r i j in_i in_j = exclusive s i j (Reach-Inv r) in_i in_j
  where
    exclusive : (t : System) (a b : ℕ) → Inv t → t.pc a ≡ inside → t.pc b ≡ inside → a ≡ b
    exclusive t a b (inl (w, none_in)) p q = absurd (none_in a p)
    exclusive t a b (inr (o, (w, own, only))) p q = only a p ∙ sym (only b q)

-- In a reachable state `rtapi_mutex_try` fails exactly when some thread holds the mutex: no release
-- is lost, and no thread waits for a mutex that nobody holds.
pub try_fails_iff :
    {s : System}
    → Reach s
    → ((rtapi_mutex_try s.word).0 ≡ true → (i : ℕ) × (s.pc i ≡ inside))
      × ((i : ℕ) → s.pc i ≡ inside → (rtapi_mutex_try s.word).0 ≡ true)
try_fails_iff {s} r = held s (Reach-Inv r)
  where
    held :
        (t : System)
        → Inv t
        → ((rtapi_mutex_try t.word).0 ≡ true → (i : ℕ) × (t.pc i ≡ inside))
          × ((i : ℕ) → t.pc i ≡ inside → (rtapi_mutex_try t.word).0 ≡ true)
    held t (inl (w, none_in)) = (rw (w, try_free) (λ h. cc), λ i q. absurd (none_in i q))
    held t (inr (o, (w, own, only))) = (λ _. (o, own), λ i q. rw (w, try_taken) refl)
