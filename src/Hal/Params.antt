-- ===== src/Hal/Params.antt =====
-- hal/hal_lib.c: `hal_param_new`.
mod Tests
pub mod Order
use mathlib.Core.Option
use real_time_system.Common.{
  ℕ, ◌+◌, Bool, true, false, not, ◌&&◌, Option, none, some, List, [], ◌∷◌, ltb, ◌==◌, if◌then◌else◌,
  length, einval, eperm, enomem, Result, ok, err, Outcome, done,
}
use real_time_system.Common.Int.{ℤ, pos, negsuc}
use real_time_system.Common.Names.{Name, snprintf}
use real_time_system.Hal.Data.{
  HalData, HalType, ParamDir, Sizes, Comp, Param, bit, float, s32, u32, s64, u64, ro, rw,
  hal_name_len, hal_size, hal_lock_load,
}
use real_time_system.Hal.Sorted.{insert_sorted}
use real_time_system.Hal.Structs.{alloc_param_struct, free_param_struct}
use real_time_system.Hal.Calls.{locked, needs_data, is_locked}
use real_time_system.Hal.Comps.{find_comp_by_id}

-- SHMCHK of a pointer, given as its distance from the base of the shared memory.
unfoldable pub shmchk : ℤ → Option ℕ
shmchk (pos off) = if ltb 0 off && ltb off hal_size then some off else none
shmchk (negsuc n) = none

abbrev pub param_type : HalType → Bool
param_type bit = true
param_type float = true
param_type s32 = true
param_type u32 = true
param_type s64 = true
param_type u64 = true
param_type _ = false

abbrev pub param_dir : ParamDir → Bool
param_dir ro = true
param_dir ParamDir.rw = true
param_dir (ParamDir.other_dir n) = false

abbrev pub new_param : Name → HalType → ParamDir → ℕ → Comp → Param → Param
new_param name type dir off c p = record p {
  owner_ptr = c.off;
  data_ptr = off;
  type = type;
  dir = dir;
  name = snprintf (hal_name_len + 1) name;
}

-- The walk, which frees the structure again where its name is met.
abbrev pub placed : Param → HalData → Option (List Param) → Outcome (Result ℕ × HalData)
placed p d none = done (err einval, free_param_struct p d)
placed p d (some ps) = done (ok 0, record d { param_list = ps })

abbrev pub allocated : (Param → Param) → Option Param × HalData → Outcome (Result ℕ × HalData)
allocated make (none, d) = done (err enomem, d)
allocated make (some p, d) =
    placed (make p) d (insert_sorted (λ (q : Param). q.name) (make p) d.param_list)

abbrev pub checked :
    Sizes
    → (ℕ → Comp → Param → Param)
    → HalData
    → Option ℕ
    → Option Comp
    → Outcome (Result ℕ × HalData)
checked sizes make d addr none = done (err einval, d)
checked sizes make d none (some c) = done (err einval, d)
checked sizes make d (some off) (some c) =
    if ltb 0 c.ready
    then done (err einval, d)
    else allocated (make off c) (alloc_param_struct sizes d)

-- The body of the call and, from the inside out, its guards.
module _ (sizes : Sizes) (name : Name) (type : HalType) (dir : ParamDir) (data_addr : ℤ)
    (comp_id : ℕ) where
  abbrev pub body_of : HalData → Outcome (Result ℕ × HalData)
  body_of d =
      checked sizes (new_param name type dir) d (shmchk data_addr)
        (find_comp_by_id comp_id d.comp_list)

  abbrev pub guarded_lock : HalData → Outcome (Result ℕ × HalData)
  guarded_lock d = if is_locked hal_lock_load d then done (err eperm, d) else locked body_of d

  abbrev pub guarded_name : HalData → Outcome (Result ℕ × HalData)
  guarded_name d = if ltb hal_name_len (length name) then done (err einval, d) else guarded_lock d

  abbrev pub guarded_dir : HalData → Outcome (Result ℕ × HalData)
  guarded_dir d = if not (param_dir dir) then done (err einval, d) else guarded_name d

  abbrev pub guarded_type : HalData → Outcome (Result ℕ × HalData)
  guarded_type d = if not (param_type type) then done (err einval, d) else guarded_dir d

  unfoldable pub hal_param_new : Option HalData → Outcome (Result ℕ × Option HalData)
  hal_param_new = needs_data guarded_type
