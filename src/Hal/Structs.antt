-- ===== src/Hal/Structs.antt =====
-- hal/hal_lib.c: the structures are taken from a free list, or else from the top of the shared
-- memory, and go back to the free list.
pub mod Keeps
pub mod Same
use mathlib.Core.Option
use real_time_system.Common.{
  ℕ, ◌+◌, ◌-◌, ◌≡◌, Bool, true, false, not, Option, none, some, List, [], ◌∷◌, ◌++◌, map, ltb, ◌==◌,
  if◌then◌else◌,
}
use real_time_system.Common.Int.{pos}
use real_time_system.Hal.Data.{
  HalData, Sizes, Oldname, Comp, user, Pin, Param, Funct, Entry, Thread, uninitialized, other_dir,
}
use real_time_system.Hal.Pool.{shmalloc_dn}

-- A structure at an offset in memory that is handed out for the first time. What no assignment has set
-- there is what the segment holds.
abbrev unset_comp : Sizes → ℕ → Comp
unset_comp sizes off = record (sizes.unset.comp off) { off = off }

abbrev unset_pin : Sizes → ℕ → Pin
unset_pin sizes off = record (sizes.unset.pin off) { off = off }

abbrev unset_param : Sizes → ℕ → Param
unset_param sizes off = record (sizes.unset.param off) { off = off }

abbrev unset_funct : Sizes → ℕ → Funct
unset_funct sizes off = record (sizes.unset.funct off) { off = off }

abbrev unset_thread : Sizes → ℕ → Thread
unset_thread sizes off = record (sizes.unset.thread off) { off = off }

abbrev zero_entry : ℕ → Entry
zero_entry off = record { off = off; arg = 0; funct = 0; funct_ptr = 0 }

abbrev emptied_comp : Comp → Comp
emptied_comp p = record p { comp_id = 0; mem_id = 0; type = user; shmem_base = 0; name = [] }

abbrev emptied_funct : Funct → Funct
emptied_funct p = record p {
  uses_fp = 0;
  owner_ptr = 0;
  reentrant = 0;
  users = 0;
  arg = 0;
  funct = 0;
  name = [];
}

abbrev emptied_param : Param → Param
emptied_param p = record p { data_ptr = 0; owner_ptr = 0; type = uninitialized; name = [] }

abbrev emptied_pin : Pin → Pin
emptied_pin p = record p {
  data_ptr_addr = 0;
  owner_ptr = 0;
  type = uninitialized;
  signal = 0;
  dummysig = pos 0;
  name = [];
  oldname = none;
}

-- A fresh block, as the structure that stands there.
abbrev fresh {ℓ} : {A : Type ℓ} → (ℕ → A) → Option ℕ × HalData → Option A × HalData
fresh make (none, d) = (none, d)
fresh make (some off, d) = (some (make off), d)

unfoldable pub halpr_alloc_comp_struct : Sizes → HalData → Option Comp × HalData
halpr_alloc_comp_struct sizes d = elim d.comp_free [
  | p ∷ rest ↦ (some (emptied_comp p), record d { comp_free = rest })
  | [] ↦ fresh (λ off. emptied_comp (unset_comp sizes off)) (shmalloc_dn sizes.of_comp d)
]

unfoldable pub alloc_funct_struct : Sizes → HalData → Option Funct × HalData
alloc_funct_struct sizes d = elim d.funct_free [
  | p ∷ rest ↦ (some (emptied_funct p), record d { funct_free = rest })
  | [] ↦ fresh (λ off. emptied_funct (unset_funct sizes off)) (shmalloc_dn sizes.of_funct d)
]

unfoldable pub alloc_param_struct : Sizes → HalData → Option Param × HalData
alloc_param_struct sizes d = elim d.param_free [
  | p ∷ rest ↦ (some (emptied_param p), record d { param_free = rest })
  | [] ↦ fresh (λ off. emptied_param (unset_param sizes off)) (shmalloc_dn sizes.of_param d)
]

unfoldable pub alloc_pin_struct : Sizes → HalData → Option Pin × HalData
alloc_pin_struct sizes d = elim d.pin_free [
  | p ∷ rest ↦ (some (emptied_pin p), record d { pin_free = rest })
  | [] ↦ fresh (λ off. emptied_pin (unset_pin sizes off)) (shmalloc_dn sizes.of_pin d)
]

-- The run times, the component and the maximum of a thread that was used before are kept.
abbrev pub emptied_thread : Thread → Thread
emptied_thread p = record p {
  uses_fp = 0;
  period = 0;
  priority = pos 0;
  task_id = 0;
  funct_list = [];
  name = [];
}

unfoldable pub alloc_thread_struct : Sizes → HalData → Option Thread × HalData
alloc_thread_struct sizes d = elim d.thread_free [
  | p ∷ rest ↦ (some (emptied_thread p), record d { thread_free = rest })
  | [] ↦ fresh (λ off. emptied_thread (unset_thread sizes off)) (shmalloc_dn sizes.of_thread d)
]

-- An entry from the pool is initialised as a list before it is tested against NULL, so without
-- memory the call is undefined; `none` says so.
abbrev pub fresh_entry : Option ℕ × HalData → Option (Entry × HalData)
fresh_entry (none, d) = none
fresh_entry (some off, d) = some (zero_entry off, d)

unfoldable pub alloc_funct_entry_struct : Sizes → HalData → Option (Entry × HalData)
alloc_funct_entry_struct sizes d = elim d.funct_entry_free [
  | p ∷ rest ↦ some (zero_entry p.off, record d { funct_entry_free = rest })
  | [] ↦ fresh_entry (shmalloc_dn sizes.of_entry d)
]

unfoldable pub free_oldname_struct : Oldname → HalData → HalData
free_oldname_struct o d = record d { oldname_free = record o { name = [] } ∷ d.oldname_free }

abbrev free_oldname : Option Oldname → HalData → HalData
free_oldname none d = d
free_oldname (some o) d = free_oldname_struct o d

unfoldable pub free_param_struct : Param → HalData → HalData
free_param_struct p d =
    let d' = free_oldname p.oldname d in record d' { param_free = emptied_param p ∷ d.param_free }

unfoldable pub free_pin_struct : Pin → HalData → HalData
free_pin_struct p d =
    let d' = free_oldname p.oldname d in
    record d' { pin_free = record (emptied_pin p) { oldname = p.oldname } ∷ d.pin_free }

-- `funct->users--` on the function at an offset. The counts are exact (Hal/Mounting), so it
-- is at least 1 here.
abbrev pub drop_user : ℕ → Funct → Funct
drop_user off f = if f.off == off then record f { users = f.users - 1 } else f

unfoldable pub free_funct_entry_struct : Entry → HalData → HalData
free_funct_entry_struct e d =
    let functs =
      if ltb 0 e.funct_ptr then map (drop_user e.funct_ptr) d.funct_list else d.funct_list in
    record d { funct_list = functs; funct_entry_free = zero_entry e.off ∷ d.funct_entry_free }

-- Each entry in turn.
unfoldable pub free_entries : List Entry → HalData → HalData
free_entries [] d = d
free_entries (e ∷ es) d = free_entries es (free_funct_entry_struct e d)

-- The entries of a list that do not call the function at an offset, and those that do.
abbrev pub calls : ℕ → Entry → Bool
calls off e = e.funct_ptr == off

unfoldable pub select : (Entry → Bool) → List Entry → List Entry
select p [] = []
select p (e ∷ es) = if p e then e ∷ select p es else select p es

abbrev without_calls : ℕ → Thread → Thread
without_calls off t = record t { funct_list = select (λ e. not (calls off e)) t.funct_list }

-- The entries of all threads that call the function, in the order of the walk.
unfoldable pub callers : ℕ → List Thread → List Entry
callers off [] = []
callers off (t ∷ ts) = select (calls off) t.funct_list ++ callers off ts

unfoldable pub free_funct_struct : Funct → HalData → HalData
free_funct_struct f d =
    let purged =
      free_entries (callers f.off d.thread_list)
        (record d { thread_list = map (without_calls f.off) d.thread_list }) in
    let d' = if ltb 0 f.users then purged else d in
    record d' { funct_free = record (emptied_funct f) { runtime = none } ∷ d'.funct_free }

-- `*prev = x->next_ptr` for the structure at an offset.
unfoldable pub unlink {ℓ} : {A : Type ℓ} → (A → ℕ) → ℕ → List A → List A
unlink at off [] = []
unlink at off (x ∷ xs) = if at x == off then xs else x ∷ unlink at off xs

-- The loop over the functions that a component owns: each is unlinked, then freed.
abbrev unlink_funct : ℕ → HalData → HalData
unlink_funct off d = record d { funct_list = unlink (λ (f : Funct). f.off) off d.funct_list }

abbrev unlink_param : ℕ → HalData → HalData
unlink_param off d = record d { param_list = unlink (λ (p : Param). p.off) off d.param_list }

free_functs : ℕ → List Funct → HalData → HalData
free_functs owner [] d = d
free_functs owner (f ∷ fs) d = elim (f.owner_ptr == owner) [
  | true ↦ free_functs owner fs (free_funct_struct f (unlink_funct f.off d))
  | false ↦ free_functs owner fs d
]

free_params : ℕ → List Param → HalData → HalData
free_params owner [] d = d
free_params owner (p ∷ ps) d = elim (p.owner_ptr == owner) [
  | true ↦ free_params owner ps (free_param_struct p (unlink_param p.off d))
  | false ↦ free_params owner ps d
]

-- The pins of the component stay in their list.
unfoldable pub free_comp_struct : Comp → HalData → HalData
unfolding free_functs free_params
free_comp_struct c d =
    let d1 = free_functs c.off d.funct_list d in
    let d2 = free_params c.off d1.param_list d1 in
    record d2 { comp_free = emptied_comp c ∷ d2.comp_free }
