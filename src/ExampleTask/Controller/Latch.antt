-- ===== src/ExampleTask/Controller/Latch.antt =====
-- The error that a disabled controller latches.
use real_time_system.Common.{
  suc, ◌+◌, ◌≡◌, Bool, false, arith, ltb, Option, some, none, List, [], ◌∷◌, length, ap, ◌∙◌,
}
use real_time_system.Common.Int.{ℤ, eqb_ℤ}
use real_time_system.ExampleTask.Controller.{
  Controller, Shared, control, task_controller, cycles, beat, beats,
}

-- The error pin stands exactly when more than ten moves were counted.
abbrev pub IsLatched : Controller → Type 0
IsLatched c = c.error ≡ ltb 10 c.error_count

control-IsLatched : (s : ℤ) (c : Controller) → IsLatched c → IsLatched (control s c)
unfolding control
control-IsLatched s c h = ground arith

-- The controller is disabled and its target is not the last one.
abbrev pub IsMoved : Controller → Type 0
IsMoved c = (c.enable_in ≡ false) × (eqb_ℤ c.target_pos c.last_target ≡ false)

control-IsMoved : (s : ℤ) (c : Controller) → IsMoved c → IsMoved (control s c)
unfolding control
control-IsMoved s c h = ground arith

control_count : (s : ℤ) (c : Controller) → IsMoved c → (control s c).error_count ≡ suc c.error_count
unfolding control
control_count s c (e, t) = ground arith

pub error_of : Option Controller → Option Bool
error_of none = none
error_of (some c) = some c.error

-- Cycles of a disabled controller whose target is not the last one add one each to the error count, and
-- the error pin stands after them exactly when the count is over ten, if it stood so before them.
pub cycles-error :
    (xs : List (ℤ × ℤ)) (c : Controller) (shared : Option Shared)
    → IsMoved c
    → IsLatched c
    → error_of (cycles xs (some c) shared).0 ≡ some (ltb 10 (c.error_count + length xs))
unfolding error_of cycles task_controller
cycles-error [] c shared m h = ap some h ∙ ap (λ n. some (ltb 10 n)) (omega arith)
cycles-error (x ∷ xs) c shared m h =
    cycles-error xs (record (control x.0 c) { heartbeat_out = beats (beat x.1 shared) })
      (beat x.1 shared) (control-IsMoved x.0 c m) (control-IsLatched x.0 c h)
    ∙ ap (λ n. some (ltb 10 n)) (omega (arith, control_count x.0 c m))
