-- ===== src/Hal/Pins.antt =====
-- hal/hal_lib.c: `hal_pin_new` and `hal_pin_newfv`, which prints the name of the pin first.
mod Tests
pub mod Order
pub mod Pointer
use mathlib.Core.Option
use real_time_system.Common.{
  ℕ, ◌+◌, Bool, true, false, not, Option, none, some, List, [], ◌∷◌, map, ltb, ◌==◌, if◌then◌else◌,
  length, einval, eperm, enomem, Result, ok, err, Outcome, done, fault,
}
use real_time_system.Common.Int.{ℤ, pos}
use real_time_system.Common.Names.{Name, snprintf}
use real_time_system.Hal.Data.{
  HalData, HalType, Sizes, Comp, Pin, Funct, bit, float, s32, u32, s64, u64, port, hal_name_len,
  hal_lock_load,
}
use real_time_system.Hal.Sorted.{insert_sorted}
use real_time_system.Hal.Structs.{alloc_pin_struct, free_pin_struct}
use real_time_system.Hal.Calls.{locked, needs_data, is_locked}
use real_time_system.Hal.Comps.{find_comp_by_id}
use real_time_system.Hal.Params.{shmchk}

abbrev pub pin_type : HalType → Bool
pin_type bit = true
pin_type float = true
pin_type s32 = true
pin_type u32 = true
pin_type s64 = true
pin_type u64 = true
pin_type port = true
pin_type _ = false

abbrev pub new_pin : Name → HalType → ℕ → Comp → Pin → Pin
new_pin name type off c p = record p {
  data_ptr_addr = off;
  owner_ptr = c.off;
  type = type;
  signal = 0;
  dummysig = pos 0;
  name = snprintf (hal_name_len + 1) name;
}

-- `(char *)comp->shmem_base + SHMOFF(&(new->dummysig))`
abbrev pub dummy_of : Sizes → Comp → Pin → ℕ
dummy_of sizes c p = c.shmem_base + (p.off + sizes.dummysig_at)

-- A pointer in a function's field `runtime` leads to the dummy signal, which is zero.
abbrev pub runs_at : Sizes → ℕ → Funct → Funct
runs_at sizes off f =
    if f.off + sizes.funct_runtime_at == off then record f { runtime = some (pos 0) } else f

-- `*data_ptr_addr = ptr`
abbrev pub point : Sizes → ℕ → ℕ → HalData → HalData
point sizes off ptr d = record d {
  pin_pointers = (off, ptr) ∷ d.pin_pointers;
  funct_list = map (runs_at sizes off) d.funct_list;
}

-- What the word at an offset points to.
unfoldable pub pointer_at : ℕ → List (ℕ × ℕ) → Option ℕ
pointer_at off [] = none
pointer_at off (w ∷ ws) = if w.0 == off then some w.1 else pointer_at off ws

-- The walk, which frees the structure again where its name is met.
abbrev pub placed : Pin → HalData → Option (List Pin) → Outcome (Result ℕ × HalData)
placed p d none = done (err einval, free_pin_struct p d)
placed p d (some ps) = done (ok 0, record d { pin_list = ps })

abbrev pub inserted : Pin → HalData → Outcome (Result ℕ × HalData)
inserted p d = placed p d (insert_sorted (λ (q : Pin). q.name) p d.pin_list)

-- The pointer is written before the walk.
abbrev pub allocated :
    Sizes → Name → HalType → ℕ → Comp → Option Pin × HalData → Outcome (Result ℕ × HalData)
allocated sizes name type off c (none, d) = done (err enomem, d)
allocated sizes name type off c (some p, d) =
    inserted (new_pin name type off c p) (point sizes off (dummy_of sizes c p) d)

-- The tests under the mutex: of the component, of the address, and of the component's state.
abbrev pub checked :
    Sizes → Name → HalType → HalData → Option ℕ → Option Comp → Outcome (Result ℕ × HalData)
checked sizes name type d addr none = done (err einval, d)
checked sizes name type d none (some c) = done (err einval, d)
checked sizes name type d (some off) (some c) =
    if ltb 0 c.ready
    then done (err einval, d)
    else allocated sizes name type off c (alloc_pin_struct sizes d)

-- The body of the call and, from the inside out, its guards, at an address that can be read. A word there
-- that is not NULL is only reported.
module _ (sizes : Sizes) (name : Name) (type : HalType) (data_ptr_addr : ℤ) (comp_id : ℕ) where
  abbrev pub body_of : HalData → Outcome (Result ℕ × HalData)
  body_of d = checked sizes name type d (shmchk data_ptr_addr) (find_comp_by_id comp_id d.comp_list)

  abbrev pub guarded_lock : HalData → Outcome (Result ℕ × HalData)
  guarded_lock d = if is_locked hal_lock_load d then done (err eperm, d) else locked body_of d

  abbrev pub guarded_name : HalData → Outcome (Result ℕ × HalData)
  guarded_name d = if ltb hal_name_len (length name) then done (err einval, d) else guarded_lock d

  abbrev pub guarded_type : HalData → Outcome (Result ℕ × HalData)
  guarded_type d = if not (pin_type type) then done (err einval, d) else guarded_name d

-- The word at the address is read before the address is tested. `none` is an address that the process
-- cannot read, NULL among them.
unfoldable pub hal_pin_new :
    Sizes → Name → HalType → Option ℤ → ℕ → Option HalData → Outcome (Result ℕ × Option HalData)
hal_pin_new sizes name type none comp_id = needs_data (λ _. fault)
hal_pin_new sizes name type (some data_ptr_addr) comp_id =
    needs_data (guarded_type sizes name type data_ptr_addr comp_id)

-- `text` is the whole text that the format and its arguments give.
unfoldable pub hal_pin_newf :
    Sizes → Name → HalType → Option ℤ → ℕ → Option HalData → Outcome (Result ℕ × Option HalData)
unfolding hal_pin_new
hal_pin_newf sizes text type data_ptr_addr comp_id h =
    if ltb hal_name_len (length text)
    then done (err enomem, h)
    else hal_pin_new sizes (snprintf (hal_name_len + 1) text) type data_ptr_addr comp_id h
