-- ===== src/Hal/Functs.antt =====
-- hal/hal_lib.c: `hal_export_funct`. The part up to the end of the mutex, with the guards before, is
-- `export_funct`, whose value is the offset of the new structure; the rest adds the pin and the two
-- parameters of the function.
pub mod Order
pub mod Failing
mod Tests
use real_time_system.Common.{
  ℕ, ◌+◌, Bool, true, false, Option, none, some, List, [], ◌∷◌, ◌++◌, map, ◌==◌, ltb, if◌then◌else◌,
  length, einval, eperm, enomem, Result, ok, err, Outcome, done,
}
use real_time_system.Common.Names.{Name, snprintf}
use real_time_system.Hal.Data.{
  HalData, Sizes, Comp, CompType, user, s32, bit, rw, ro, Funct, hal_name_len, hal_lock_load,
}
use real_time_system.Hal.Sorted.{insert_sorted}
use real_time_system.Hal.Structs.{alloc_funct_struct, free_funct_struct}
use real_time_system.Hal.Calls.{locked, needs_data, is_locked}
use real_time_system.Hal.Comps.{find_comp_by_id}
use real_time_system.Hal.Params.{hal_param_new}
use real_time_system.Hal.Pins.{hal_pin_newf}
use real_time_system.Common.Runs.{Run, pure, after, ◌>>=◌, ◌>>◌}
use real_time_system.Common.Int.{pos}
use mathlib.Core.Option

-- What the caller asks for.
pub record Export : Type 0 where
  pub funct : ℕ
  pub arg : ℕ
  pub uses_fp : ℕ
  pub reentrant : ℕ

abbrev pub new_funct : Name → Export → Comp → Funct → Funct
new_funct name x c f = record f {
  uses_fp = x.uses_fp;
  owner_ptr = c.off;
  reentrant = x.reentrant;
  users = 0;
  arg = x.arg;
  funct = x.funct;
  name = snprintf (hal_name_len + 1) name;
}

-- The walk, which frees the structure again where its name is met.
abbrev pub placed : Funct → HalData → Option (List Funct) → Outcome (Result ℕ × HalData)
placed f d none = done (err einval, free_funct_struct f d)
placed f d (some fs) = done (ok f.off, record d { funct_list = fs })

abbrev pub allocated : (Funct → Funct) → Option Funct × HalData → Outcome (Result ℕ × HalData)
allocated make (none, d) = done (err enomem, d)
allocated make (some f, d) =
    placed (make f) d (insert_sorted (λ (g : Funct). g.name) (make f) d.funct_list)

abbrev pub is_user : CompType → Bool
is_user user = true
is_user _ = false

-- From the test of the component that was found on.
abbrev pub exported : Sizes → Name → Export → HalData → Option Comp → Outcome (Result ℕ × HalData)
exported sizes name x d none = done (err einval, d)
exported sizes name x d (some c) =
    if is_user c.type
    then done (err einval, d)
    else if ltb 0 c.ready
    then done (err einval, d)
    else allocated (new_funct name x c) (alloc_funct_struct sizes d)

-- The body under the mutex and, from the inside out, the guards. The lock is tested twice in a row.
module _ (sizes : Sizes) (name : Name) (x : Export) (comp_id : ℕ) where
  abbrev pub body_of : HalData → Outcome (Result ℕ × HalData)
  body_of d = exported sizes name x d (find_comp_by_id comp_id d.comp_list)

  abbrev pub guarded_lock : HalData → Outcome (Result ℕ × HalData)
  guarded_lock d = if is_locked hal_lock_load d then done (err eperm, d) else locked body_of d

  abbrev pub guarded_name : HalData → Outcome (Result ℕ × HalData)
  guarded_name d = if ltb hal_name_len (length name) then done (err einval, d) else guarded_lock d

  unfoldable pub export_funct : Option HalData → Outcome (Result ℕ × Option HalData)
  export_funct = needs_data guarded_name

-- `"%s" suffix` in a buffer of HAL_NAME_LEN + 1 bytes
abbrev pub suffixed : Name → Name → Name
suffixed name suffix = snprintf (hal_name_len + 1) (name ++ suffix)

abbrev pub dot_time : Name
dot_time = b'.' ∷ b't' ∷ b'i' ∷ b'm' ∷ b'e' ∷ []

abbrev pub dot_tmax : Name
dot_tmax = b'.' ∷ b't' ∷ b'm' ∷ b'a' ∷ b'x' ∷ []

abbrev pub dot_tmax_increased : Name
dot_tmax_increased =
    dot_tmax ++ b'-' ∷ b'i' ∷ b'n' ∷ b'c' ∷ b'r' ∷ b'e' ∷ b'a' ∷ b's' ∷ b'e' ∷ b'd' ∷ []

-- An assignment to a field of the function at an offset.
abbrev pub at_offset : ℕ → (Funct → Funct) → Funct → Funct
at_offset off g f = if f.off == off then g f else f

abbrev pub assign : ℕ → (Funct → Funct) → Run (Option HalData) (Unit {0})
assign off g none = done (tt, none)
assign off g (some d) =
    done (tt, some (record d { funct_list = map (at_offset off g) d.funct_list }))

-- `*(new_hal_funct_t->runtime) = 0`, where the pin's dummy signal is zero already
abbrev pub zero_runtime : Funct → Funct
zero_runtime f = record f { runtime = some (pos 0) }

-- The rest of the call for the function at `off`; what it returns for the parameters is not tested.
abbrev pub with_pins : Sizes → Name → ℕ → ℕ → Result ℕ → Run (Option HalData) (Result ℕ)
with_pins sizes name comp_id off (err e) = pure (err einval)
with_pins sizes name comp_id off (ok r) = do
  assign off zero_runtime
  assign off (λ f. record f { maxtime = pos 0 })
  hal_param_new sizes (suffixed name dot_tmax) s32 rw (pos (off + sizes.funct_maxtime_at)) comp_id
  assign off (λ f. record f { maxtime_increased = false })
  hal_param_new sizes (suffixed name dot_tmax_increased) bit ro
      (pos (off + sizes.funct_increased_at)) comp_id
  pure (ok 0)

abbrev pub after_export : Sizes → Name → ℕ → Result ℕ → Run (Option HalData) (Result ℕ)
after_export sizes name comp_id (err e) = pure (err e)
after_export sizes name comp_id (ok off) =
    hal_pin_newf sizes (name ++ dot_time) s32 (some (pos (off + sizes.funct_runtime_at))) comp_id
    >>= with_pins sizes name comp_id off

unfoldable pub hal_export_funct : Sizes → Name → Export → ℕ → Run (Option HalData) (Result ℕ)
unfolding export_funct hal_pin_newf hal_param_new
hal_export_funct sizes name x comp_id =
    export_funct sizes name x comp_id >>= after_export sizes name comp_id
