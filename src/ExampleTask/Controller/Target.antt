-- ===== src/ExampleTask/Controller/Target.antt =====
-- The way of an enabled controller to its target.
use real_time_system.Common.{
  ℕ, suc, ◌+◌, ◌-◌, ◌≤◌, ◌≡◌, refl, sym, true, Option, none, some, List, [], ◌∷◌, arith, length,
  if◌then◌else◌, ap,
}
use mathlib.Core.Path.{subst}
use real_time_system.Common.Int.{ℤ, ◌+ℤ◌, ◌-ℤ◌, pos_part, neg_part, eq_of_parts}
use real_time_system.ExampleTask.Controller.{
  Controller, Shared, step_of, toward, control, task_controller, beat, beats, enabled, cycles,
  disabled,
}

-- |a - b|
abbrev pub distance : ℤ → ℤ → ℕ
distance a b =
    (pos_part a + neg_part b - (pos_part b + neg_part a))
    + (pos_part b + neg_part a - (pos_part a + neg_part b))

distance-toward :
    (target : ℤ) (step : ℕ) (p : ℤ)
    → distance (toward target step p) target ≡ distance p target - step
unfolding toward ◌+ℤ◌ ◌-ℤ◌
distance-toward target step p = ground arith

distance_zero : (a b : ℤ) → distance a b ≡ 0 → a ≡ b
distance_zero a b h = eq_of_parts a b (omega (arith, h))

step_positive : (scaled : ℤ) → 1 ≤ step_of scaled
step_positive scaled = ground arith

-- What an enabled call leaves for the next one.
after : ℤ × ℤ → Controller → Option Shared → Controller
after x c shared = record (enabled x.0 c) { heartbeat_out = beats (beat x.1 shared) }

enabled_cycle :
    (x : ℤ × ℤ) (c : Controller) (shared : Option Shared)
    → c.enable_in ≡ true
    → task_controller x.0 x.1 (some c) shared ≡ (some (after x c shared), beat x.1 shared)
unfolding task_controller control after
enabled_cycle x c shared e =
    ap
      (λ b. (
        some (record (if b then enabled x.0 c else disabled c) {
          heartbeat_out = beats (beat x.1 shared);
        }),
        beat x.1 shared,
      ))
      e

closer :
    (x : ℤ × ℤ) (c : Controller) (shared : Option Shared) (k : ℕ)
    → distance c.current_pos c.target_pos ≤ suc k
    → distance (after x c shared).current_pos c.target_pos ≤ k
unfolding after
closer x c shared k h =
    omega (arith, distance-toward c.target_pos (step_of x.0) c.current_pos, step_positive x.0, h)

-- The controller d is enabled and stands at the target of c.
pub IsThere : Controller → Option Controller → Type 0
IsThere c none = ⊥
IsThere c (some d) =
    (d.enable_in ≡ true) × (d.current_pos ≡ c.target_pos) × (d.target_pos ≡ c.target_pos)

-- Cycles of an enabled controller whose target stays bring the position to the target and keep it
-- there, whatever the steps are, if there are at least as many cycles as the position is away from it.
pub cycles-IsThere :
    (xs : List (ℤ × ℤ)) (c : Controller) (shared : Option Shared)
    → c.enable_in ≡ true
    → distance c.current_pos c.target_pos ≤ length xs
    → IsThere c (cycles xs (some c) shared).0
unfolding cycles IsThere after
cycles-IsThere [] c shared e h =
    (e, distance_zero c.current_pos c.target_pos (omega (arith, h)), refl)
cycles-IsThere (x ∷ xs) c shared e h =
    subst (λ r. IsThere c (cycles xs r.0 r.1).0) (sym (enabled_cycle x c shared e))
      (cycles-IsThere xs (after x c shared) (beat x.1 shared) e (closer x c shared (length xs) h))
