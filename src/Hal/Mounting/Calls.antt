-- ===== src/Hal/Mounting/Calls.antt =====
-- Sequences of `hal_add_funct_to_thread` and `hal_del_funct_from_thread`.
use real_time_system.Common.{
  ℕ, zero, suc, ◌<◌, ◌≡◌, refl, ap, ◌∙◌, Bool, true, false, Option, none, some, List, [], ◌∷◌, ◌++◌,
  if◌then◌else◌, arith, einval, eperm, Result, err, Outcome, done, hang, fault,
}
use real_time_system.Common.Int.{ℤ, pos, negsuc}
use real_time_system.Common.Names.{Name}
use real_time_system.Hal.Data.{HalData, Sizes, Funct, hal_lock_config}
use real_time_system.Hal.Calls.{After, locked, unlock, keep, is_locked}
use real_time_system.Hal.Mounting.{
  add_found, add_funct, del_funct, find_funct, hal_add_funct_to_thread, hal_del_funct_from_thread,
}
use real_time_system.Hal.Mounting.Starving.{Misses, add_starves, del_defined, starved}
use real_time_system.Hal.Mounting.Users.{IsCounted, add_funct-IsCounted, calls_of}
use real_time_system.Hal.Mounting.Unmounting.{found-AreCounted, del_funct-IsCounted}

pub data Call : Type 0 where
  add : Option Name → Option Name → ℤ → Call
  del : Option Name → Option Name → Call

pub step : Sizes → Call → Option HalData → Outcome (Result ℕ × Option HalData)
unfolding hal_add_funct_to_thread hal_del_funct_from_thread
step sizes (add f n position) h = hal_add_funct_to_thread sizes f n position h
step sizes (del f n) h = hal_del_funct_from_thread f n h

abbrev and_then :
    (Option HalData → Outcome (Option HalData))
    → Outcome (Result ℕ × Option HalData)
    → Outcome (Option HalData)
and_then k (done (r, h)) = k h
and_then k hang = hang
and_then k fault = fault

-- The calls of a list, one after another.
pub run : Sizes → List Call → Option HalData → Outcome (Option HalData)
unfolding step
run sizes [] h = done h
run sizes (c ∷ cs) h = and_then (run sizes cs) (step sizes c h)

-- Without shared memory, or with a free mutex and exact use counts.
abbrev pub IsReady : Option HalData → Type 0
IsReady none = Unit
IsReady (some d) = (d.mutex ≡ false) × IsCounted d

-- A call that names a function and a thread and finds no memory for the entry.
abbrev pub Starves : Sizes → Call → Option HalData → Type 0
Starves sizes (add f n position) (some d) = Misses sizes f n d
Starves sizes _ _ = ⊥

-- A call that returns leaves a ready state, no call hangs, and one that is undefined has its reason.
abbrev Returns : Type 0 → Outcome (Result ℕ × Option HalData) → Type 0
Returns P (done (r, h)) = IsReady h
Returns P hang = ⊥
Returns P fault = P

-- An undefined run has come, through calls that returned, to one that finds no memory.
abbrev pub EndsReady : Sizes → List Call → Option HalData → Outcome (Option HalData) → Type 0
EndsReady sizes cs h (done h1) = IsReady h1
EndsReady sizes cs h hang = ⊥
EndsReady sizes cs h fault =
    (before : List Call) × (c : Call) × (rest : List Call) × (h1 : Option HalData) × (cs
      ≡ before ++ (c ∷ rest))
    × (run sizes before h ≡ done h1)
    × Starves sizes c h1

unlocked :
    (P : Type 0) (o : Outcome (Result ℕ × HalData))
    → After IsCounted o
    → (o ≡ fault → P)
    → Returns P (keep (unlock o))
unlocked P (done (r, d)) a f = (refl, a)
unlocked P hang a f = a
unlocked P fault a f = f refl

guarded :
    (P : Type 0) (c : Bool) (d : HalData) (body : HalData → Outcome (Result ℕ × HalData))
    → IsReady (some d)
    → After IsCounted (body (record d { mutex = true }))
    → (body (record d { mutex = true }) ≡ fault → P)
    → Returns P (keep (if c then done (err eperm, d) else locked body d))
guarded P true d body (m, s) a f = (m, s)
guarded P false d body (m, s) a f =
    rw (m, keep, if◌then◌else◌) (unlocked P (body (record d { mutex = true })) a f)

step-Returns :
    (sizes : Sizes) (c : Call) (h : Option HalData)
    → IsReady h
    → Returns (Starves sizes c h) (step sizes c h)
unfolding step hal_add_funct_to_thread hal_del_funct_from_thread
step-Returns sizes (add f n position) none r = tt
step-Returns sizes (del f n) none r = tt
step-Returns sizes (add f n position) (some d) r =
    guarded (Starves sizes (add f n position) (some d)) (is_locked hal_lock_config d) d
      (add_funct sizes f n position) r
      (add_funct-IsCounted sizes f n position (record d { mutex = true }) r.1)
      (λ e. starved sizes f n d (add_starves sizes f n position (record d { mutex = true }) e))
step-Returns sizes (del f n) (some d) r =
    guarded ⊥ (is_locked hal_lock_config d) d (del_funct f n) r
      (del_funct-IsCounted f n (record d { mutex = true }) r.1)
      (del_defined f n (record d { mutex = true }))

-- A run that goes on after a call that returned.
went_on :
    (sizes : Sizes) (c : Call) (cs : List Call) (h h1 : Option HalData) (r : Result ℕ)
    (o : Outcome (Option HalData))
    → step sizes c h ≡ done (r, h1)
    → EndsReady sizes cs h1 o
    → EndsReady sizes (c ∷ cs) h o
unfolding run
went_on sizes c cs h h1 r (done h2) s e = e
went_on sizes c cs h h1 r hang s e = e
went_on sizes c cs h h1 r fault s (before, x, rest, h2, q, k, l) =
    (c ∷ before, x, rest, h2, ap (λ l. c ∷ l) q, ap (and_then (run sizes before)) s ∙ k, l)

and_then-EndsReady :
    (sizes : Sizes) (c : Call) (cs : List Call) (h : Option HalData)
    → ((h1 : Option HalData) → IsReady h1 → EndsReady sizes cs h1 (run sizes cs h1))
    → (o : Outcome (Result ℕ × Option HalData)) → step sizes c h ≡ o
    → Returns (Starves sizes c h) o
    → EndsReady sizes (c ∷ cs) h (and_then (run sizes cs) o)
unfolding run
and_then-EndsReady sizes c cs h f (done (r, h1)) s a =
    went_on sizes c cs h h1 r (run sizes cs h1) s (f h1 a)
and_then-EndsReady sizes c cs h f hang s a = a
and_then-EndsReady sizes c cs h f fault s a = ([], c, cs, h, refl, refl, a)

-- Without shared memory, or with the mutex free and exact use counts: no sequence of
-- `hal_add_funct_to_thread` and `hal_del_funct_from_thread`, with any names, NULL among them, and any
-- positions, hangs. It returns with the mutex free and every function's use count equal to the number of
-- entries that call it, or else it has come, through calls that returned, to a call that adds a named
-- function to a named thread with the free list of entries empty and no room in the shared memory.
pub run-EndsReady :
    (sizes : Sizes) (cs : List Call) (h : Option HalData)
    → IsReady h
    → EndsReady sizes cs h (run sizes cs h)
unfolding run
run-EndsReady sizes [] h r = r
run-EndsReady sizes (c ∷ cs) h r =
    and_then-EndsReady sizes c cs h (run-EndsReady sizes cs) (step sizes c h) refl
      (step-Returns sizes c h r)

-- A call that is refused leaves everything as it was.
refused :
    (c : Bool) (d : HalData) (body : HalData → Outcome (Result ℕ × HalData))
    → d.mutex ≡ false
    → body (record d { mutex = true }) ≡ done (err einval, record d { mutex = true })
    → keep (if c then done (err eperm, d) else locked body d)
      ≡ done (err (if c then eperm else einval), some d)
refused true d body m e = refl
refused false d body m e = rw (m, keep, if◌then◌else◌) (rw (e, keep, unlock))

add_refused :
    (sizes : Sizes) (fname n : Name) (position : ℤ) (d : HalData) (f : Funct)
    → find_funct fname d ≡ some f
    → f.reentrant ≡ 0
    → 0 < f.users
    → add_funct sizes (some fname) (some n) position d ≡ done (err einval, d)
unfolding add_funct
add_refused sizes fname n (pos zero) d f q z c = refl
add_refused sizes fname n (pos (suc m)) d f q z c = rw (q, add_found) (ground (arith, z, c))
add_refused sizes fname n (negsuc m) d f q z c = rw (q, add_found) (ground (arith, z, c))

-- With the mutex free and exact use counts, a function that is not reentrant and that an entry of some
-- thread calls is never added once more: the call returns -EPERM on a locked HAL, or else -EINVAL, and
-- changes nothing.
pub nonreentrant_once :
    (sizes : Sizes) (fname n : Name) (position : ℤ) (d : HalData) (f : Funct)
    → IsReady (some d)
    → find_funct fname d ≡ some f
    → f.reentrant ≡ 0
    → 0 < calls_of f.off d.thread_list
    → hal_add_funct_to_thread sizes (some fname) (some n) position (some d)
      ≡ done (err (if is_locked hal_lock_config d then eperm else einval), some d)
unfolding hal_add_funct_to_thread
nonreentrant_once sizes fname n position d f (m, s) q z c =
    refused (is_locked hal_lock_config d) d (add_funct sizes (some fname) (some n) position) m (
      add_refused sizes fname n position (record d { mutex = true }) f q z
        (rw (found-AreCounted d.thread_list d.funct_list fname f q s).1 c))
