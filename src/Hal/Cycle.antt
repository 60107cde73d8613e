-- ===== src/Hal/Cycle.antt =====
-- hal/hal_lib.c: `thread_task`, one pass of its loop. The functions that the thread calls belong to
-- the components: a pass yields the calls in their order, and reads of the functions no more than the
-- run times that it finds behind their pointers.
mod Tests
pub mod Order
use real_time_system.Common.{
  ℕ, ◌+◌, ◌-◌, ◌%◌, ◌^◌, Bool, true, false, Option, none, some, List, [], ◌∷◌, map, ltb, ◌==◌,
  if◌then◌else◌,
}
use real_time_system.Common.Int.{ℤ, pos, negsuc, ◌-ℤ◌, ltb_ℤ}
use real_time_system.Hal.Data.{HalData, Funct, Entry, Thread}

-- `funct(arg, period)`
pub record CallOf : Type 0 where
  pub funct : ℕ
  pub arg : ℕ
  pub period : ℕ

-- `(hal_s32_t)`
abbrev signed : ℕ → ℤ
signed m = if ltb m (2 ^ 31) then pos m else negsuc (2 ^ 32 - m - 1)

abbrev pub to_s32 : ℤ → ℤ
to_s32 (pos n) = signed (n % 2 ^ 32)
to_s32 (negsuc n) = signed (2 ^ 32 - 1 - n % 2 ^ 32)

abbrev raised : Funct → ℤ → Funct
raised f r =
    if ltb_ℤ f.maxtime r
    then record f { maxtime = r; maxtime_increased = true }
    else record f { maxtime_increased = false }

abbrev measured : Option ℤ → Funct → Funct
measured none f = f
measured (some r) f = raised f r

-- The update of the function at an offset.
abbrev pub measure : ℕ → Funct → Funct
measure off f = if f.off == off then measured f.runtime f else f

-- The calls, the functions afterwards, and the last reading of the clock.
pub record Walk : Type 0 where
  pub calls : List CallOf
  pub functs : List Funct
  pub end_time : ℤ

abbrev pub call_of : ℕ → Entry → CallOf
call_of period e = record { funct = e.funct; arg = e.arg; period = period }

-- The readings of the clock are numbered from n. An entry without a function ends the walk.
unfoldable pub walk : (clock : ℕ → ℤ) → ℕ → ℕ → List Entry → List Funct → ℤ → Walk
walk clock period n [] fs end_time = record { calls = []; functs = fs; end_time = end_time }
walk clock period n (e ∷ es) fs end_time =
    let rest = walk clock period (n + 1) es (map (measure e.funct_ptr) fs) (clock n) in
    if e.funct_ptr == 0
    then record { calls = call_of period e ∷ []; functs = fs; end_time = clock n }
    else record rest { calls = call_of period e ∷ rest.calls }

abbrev timed : ℤ → Thread → Thread
timed r t =
    if ltb_ℤ t.maxtime r then record t { runtime = r; maxtime = r } else record t { runtime = r }

-- What a pass does before it waits for the next period: the calls, the thread and the functions.
pub record Pass : Type 0 where
  pub calls : List CallOf
  pub thread : Thread
  pub functs : List Funct

abbrev walked : ℤ → Thread → Walk → Pass
walked start_time t w = record {
  calls = w.calls;
  thread = timed (to_s32 (w.end_time -ℤ start_time)) t;
  functs = w.functs;
}

abbrev run_functs : (clock : ℕ → ℤ) → Thread → List Entry → List Funct → Pass
run_functs clock t [] fs = record { calls = []; thread = t; functs = fs }
run_functs clock t (e ∷ es) fs = walked (clock 0) t (walk clock t.period 1 (e ∷ es) fs (clock 0))

unfoldable pub thread_pass : (clock : ℕ → ℤ) → HalData → Thread → Pass
thread_pass clock d t =
    if ltb 0 d.threads_running
    then run_functs clock t t.funct_list d.funct_list
    else record { calls = []; thread = t; functs = d.funct_list }
