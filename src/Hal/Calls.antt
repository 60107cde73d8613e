-- ===== src/Hal/Calls.antt =====
-- hal/hal_lib.c: what the calls have in common. `hal_data` is NULL (`none`) until the shared memory
-- is mapped, and the calls that change the lists hold the mutex of the shared data.
use real_time_system.Common.{
  ℕ, ◌/◌, ◌%◌, Bool, true, false, Option, none, some, ◌==◌, if◌then◌else◌, einval, Result, err,
  Outcome, done, hang, fault,
}
use real_time_system.Hal.Data.{HalData}

module _ {A : Type 0} where
  abbrev pub unlock : Outcome (A × HalData) → Outcome (A × HalData)
  unlock (done (a, d)) = done (a, record d { mutex = false })
  unlock hang = hang
  unlock fault = fault

  -- `rtapi_mutex_get`, a body each of whose returns comes after `rtapi_mutex_give`. The calls of one
  -- process run one after another, so a mutex that is taken when a call asks for it is held by that
  -- call itself, and the loop of `rtapi_mutex_get` never ends.
  abbrev pub locked : (HalData → Outcome (A × HalData)) → HalData → Outcome (A × HalData)
  locked body d = if d.mutex then hang else unlock (body (record d { mutex = true }))

abbrev pub keep : Outcome (Result ℕ × HalData) → Outcome (Result ℕ × Option HalData)
keep (done (r, d)) = done (r, some d)
keep hang = hang
keep fault = fault

-- The first test of the calls.
abbrev pub needs_data :
    (HalData → Outcome (Result ℕ × HalData)) → Option HalData → Outcome (Result ℕ × Option HalData)
needs_data f none = done (err einval, none)
needs_data f (some d) = keep (f d)

-- `lock & mask`, at a mask of one bit.
abbrev pub is_locked : ℕ → HalData → Bool
is_locked mask d = d.lock / mask % 2 == 1

-- The data after a call that returns; no call hangs.
abbrev pub After : (HalData → Type 0) → Outcome (Result ℕ × HalData) → Type 0
After P (done (r, d)) = P d
After P hang = ⊥
After P fault = Unit

-- A guard of a call.
pub After-if :
    (P : HalData → Type 0) (d : HalData) (c : Bool) (b : Outcome (Result ℕ × HalData))
    → P d
    → After P b
    → After P (if c then done (err einval, d) else b)
After-if P d true b x y = x
After-if P d false b x y = y
