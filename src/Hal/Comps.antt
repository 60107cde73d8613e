-- ===== src/Hal/Comps.antt =====
-- hal/hal_lib.c: components (`hal_init`, `hal_exit`, `hal_ready`, `hal_unready`, `hal_set_unready`,
-- `hal_set_constructor`, `hal_comp_name` and `hal_malloc`). The ids that rtapi_init hands out are not
-- negative, and a negative id finds nothing, as an unknown one. `ref_cnt` is counted and never read.
mod Tests
pub mod Ready
pub mod Names
use Prim.Native.Nat.{Ordering}
use mathlib.Core.Option
use real_time_system.Common.{
  ℕ, ◌+◌, ◌<◌, Bool, true, false, Option, none, some, List, [], ◌∷◌, ltb, ◌==◌, if◌then◌else◌,
  length, einval, enomem, ealready, Result, ok, err, Outcome, done,
}
use real_time_system.Common.Names.{Name, snprintf}
use real_time_system.Hal.Data.{HalData, HalState, Sizes, Comp, realtime, destroyed, hal_name_len}
use real_time_system.Hal.Pool.{shmalloc_up}
use real_time_system.Hal.Sorted.{find_by_name}
use real_time_system.Hal.Structs.{halpr_alloc_comp_struct, free_comp_struct}
use real_time_system.Hal.Calls.{locked, needs_data}

unfoldable pub find_comp_by_id : ℕ → List Comp → Option Comp
find_comp_by_id id [] = none
find_comp_by_id id (c ∷ cs) = if c.comp_id == id then some c else find_comp_by_id id cs

-- The name of the new structure is not set.
abbrev new_comp : ℕ → ℕ → Comp → Comp
new_comp base id c = record c {
  comp_id = id;
  type = realtime;
  pid = 0;
  ready = 0;
  shmem_base = base;
  insmod_args = 0;
}

abbrev pub registered : ℕ → ℕ → Option Comp × HalData → Outcome (Result ℕ × HalData)
registered base id (none, d) = done (err enomem, d)
registered base id (some c, d) =
    done (ok id, record d { comp_list = new_comp base id c ∷ d.comp_list })

abbrev pub unless_named : Sizes → ℕ → ℕ → HalData → Option Comp → Outcome (Result ℕ × HalData)
unless_named sizes base id d (some c) = done (err einval, d)
unless_named sizes base id d none = registered base id (halpr_alloc_comp_struct sizes d)

abbrev pub register : Sizes → ℕ → Name → ℕ → HalData → Outcome (Result ℕ × HalData)
register sizes base name id d =
    unless_named sizes base id d
      (find_by_name (λ (c : Comp). c.name) (snprintf (hal_name_len + 1) name) d.comp_list)

-- `hal_init` once the library has its shared memory, mapped at `base`; the last argument but one is
-- what rtapi_init returns.
unfoldable pub hal_init :
    Sizes → ℕ → Option Name → Result ℕ → HalData → Outcome (Result ℕ × HalData)
hal_init sizes base none id d = done (err einval, d)
hal_init sizes base (some name) (err e) d = done (err einval, d)
hal_init sizes base (some name) (ok id) d =
    if ltb hal_name_len (length name)
    then done (err einval, d)
    else locked (register sizes base name id) d

-- The component with an id, and the list without it.
unfoldable pub take_comp : ℕ → List Comp → Option (Comp × List Comp)
take_comp id [] = none
take_comp id (c ∷ cs) =
    if c.comp_id == id
    then some (c, cs)
    else Option.map (λ (r : Comp × List Comp). (r.0, c ∷ r.1)) (take_comp id cs)

abbrev pub removed : HalData → Option (Comp × List Comp) → Outcome (Result ℕ × HalData)
removed d none = done (err einval, d)
removed d (some (c, cs)) = done (ok 0, free_comp_struct c (record d { comp_list = cs }))

abbrev pub is_destroyed : HalState → Bool
is_destroyed destroyed = true
is_destroyed _ = false

unfoldable pub hal_exit : ℕ → Option HalData → Outcome (Result ℕ × Option HalData)
hal_exit id = needs_data (λ d.
    if is_destroyed d.state
    then done (err ealready, d)
    else locked (λ d'. removed d' (take_comp id d'.comp_list)) d)

-- The walk to the component with an id, and what is done to it.
unfoldable pub on_comp : (Comp → Result ℕ × Comp) → ℕ → List Comp → Result ℕ × List Comp
on_comp f id [] = (err einval, [])
on_comp f id (c ∷ cs) =
    let rest = on_comp f id cs in
    if c.comp_id == id then ((f c).0, (f c).1 ∷ cs) else (rest.0, c ∷ rest.1)

abbrev with_comp : (Comp → Result ℕ × Comp) → ℕ → HalData → Outcome (Result ℕ × HalData)
with_comp f id d = let r = on_comp f id d.comp_list in done (r.0, record d { comp_list = r.1 })

abbrev make_ready : Comp → Result ℕ × Comp
make_ready c = if ltb 0 c.ready then (err einval, c) else (ok 0, record c { ready = 1 })

abbrev make_unready : Comp → Result ℕ × Comp
make_unready c = if ltb c.ready 1 then (err einval, c) else (ok 0, record c { ready = 0 })

unfoldable pub hal_ready : ℕ → HalData → Outcome (Result ℕ × HalData)
hal_ready id = locked (with_comp make_ready id)

unfoldable pub hal_unready : ℕ → HalData → Outcome (Result ℕ × HalData)
hal_unready id = locked (with_comp make_unready id)

unfoldable pub hal_set_unready : ℕ → HalData → Outcome (Result ℕ × HalData)
hal_set_unready id = locked (with_comp (λ c. (ok 0, record c { ready = 0 })) id)

unfoldable pub hal_set_constructor : ℕ → ℕ → HalData → Outcome (Result ℕ × HalData)
hal_set_constructor id make = locked (with_comp (λ c. (ok 0, record c { make = make })) id)

unfoldable pub hal_comp_name : ℕ → HalData → Outcome (Option Name × HalData)
hal_comp_name id =
    locked (λ d. done (Option.map (λ (c : Comp). c.name) (find_comp_by_id id d.comp_list), d))

unfoldable pub hal_malloc : ℕ → HalData → Outcome (Option ℕ × HalData)
hal_malloc size = locked (λ d. done (shmalloc_up size d))
