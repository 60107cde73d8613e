-- ===== src/Hal/Cycle/Order.antt =====
-- What a pass calls, and the longest times that it records.
use real_time_system.Common.{ℕ, ◌+◌, ◌<◌, ◌≡◌, refl, List, [], ◌∷◌, map, ltb, if◌then◌else◌, arith}
use real_time_system.Common.Int.{ℤ, ◌≤ℤ◌}
use real_time_system.Hal.Data.{HalData, Funct, Entry, Thread}
use real_time_system.Hal.Cycle.{call_of, walk, measure, run_functs, thread_pass, timed}

-- Every entry stands for a function.
abbrev pub AllSet : List Entry → Type 0
AllSet [] = Unit
AllSet (e ∷ es) = (0 < e.funct_ptr) × AllSet es

walk-calls :
    (clock : ℕ → ℤ) (period n : ℕ) (es : List Entry) (fs : List Funct) (end_time : ℤ)
    → AllSet es
    → (walk clock period n es fs end_time).calls ≡ map (call_of period) es
unfolding walk
walk-calls clock period n [] fs t a = refl
walk-calls clock period n (e ∷ es) fs t a =
    ground
      (arith, a.0, walk-calls clock period (n + 1) es (map (measure e.funct_ptr) fs) (clock n) a.1)

run_functs-calls :
    (clock : ℕ → ℤ) (t : Thread) (es : List Entry) (fs : List Funct)
    → AllSet es
    → (run_functs clock t es fs).calls ≡ map (call_of t.period) es
run_functs-calls clock t [] fs a = refl
run_functs-calls clock t (e ∷ es) fs a = walk-calls clock t.period 1 (e ∷ es) fs (clock 0) a

-- A pass calls every function of the thread's list exactly once, in order, with its argument and the
-- thread's period, if the threads run; else it calls none. Every entry has to stand for a function.
pub pass-calls :
    (clock : ℕ → ℤ) (d : HalData) (t : Thread)
    → AllSet t.funct_list
    → (thread_pass clock d t).calls
      ≡ (if ltb 0 d.threads_running then map (call_of t.period) t.funct_list else [])
unfolding thread_pass
pass-calls clock d t a = ground (arith, run_functs-calls clock t t.funct_list d.funct_list a)

-- The longest time of a thread bounds its last one, and never falls.
abbrev pub Bounds : Thread → Thread → Type 0
Bounds t t' = (t.maxtime ≤ℤ t'.maxtime) × (t'.runtime ≤ℤ t'.maxtime)

timed-Bounds : (r : ℤ) (t : Thread) → Bounds t (timed r t)
timed-Bounds r t = ground arith

run_functs-Bounds :
    (clock : ℕ → ℤ) (t : Thread) (es : List Entry) (fs : List Funct)
    → t.runtime ≤ℤ t.maxtime
    → Bounds t (run_functs clock t es fs).thread
run_functs-Bounds clock t [] fs h = (omega arith, h)
run_functs-Bounds clock t (e ∷ es) fs h = timed-Bounds _ t

-- A pass never lowers a thread's longest time, and leaves it at least as large as the last time, if it
-- was so before.
pub pass-Bounds :
    (clock : ℕ → ℤ) (d : HalData) (t : Thread)
    → t.runtime ≤ℤ t.maxtime
    → Bounds t (thread_pass clock d t).thread
unfolding thread_pass
pass-Bounds clock d t h = ground (arith, run_functs-Bounds clock t t.funct_list d.funct_list h, h)
