-- ===== src/Hal/Structs/Keeps.antt =====
-- What the freeing of structures leaves alone.
use real_time_system.Common.{
  ℕ, ◌≡◌, refl, ◌∙◌, Bool-cases, Option, none, some, inl, inr, List, [], ◌∷◌, ◌==◌, map, arith,
}
use real_time_system.Hal.Data.{Oldname, Sizes, HalData, Comp, Funct, Param, Pin, Entry}
use real_time_system.Hal.Pool.{shmalloc_dn}
use real_time_system.Hal.Structs.{
  alloc_pin_struct, free_pin_struct, emptied_pin, unset_pin, alloc_funct_struct, emptied_funct,
  unset_funct, alloc_param_struct, emptied_param, unset_param, free_oldname, free_oldname_struct,
  halpr_alloc_comp_struct, fresh, unset_comp, emptied_comp, free_comp_struct, free_functs,
  free_params, free_funct_struct, free_param_struct, free_entries, free_funct_entry_struct, callers,
  without_calls, unlink_funct, unlink_param,
}

free_entries-comps : (es : List Entry) (d : HalData) → (free_entries es d).comp_list ≡ d.comp_list
unfolding free_entries free_funct_entry_struct
free_entries-comps [] d = refl
free_entries-comps (e ∷ es) d = free_entries-comps es (free_funct_entry_struct e d)

free_funct-comps : (f : Funct) (d : HalData) → (free_funct_struct f d).comp_list ≡ d.comp_list
unfolding free_funct_struct
free_funct-comps f d = ground (
  arith,
  free_entries-comps (callers f.off d.thread_list)
      (record d { thread_list = map (without_calls f.off) d.thread_list }),
)

free_functs-comps :
    (o : ℕ) (fs : List Funct) (d : HalData) → (free_functs o fs d).comp_list ≡ d.comp_list
unfolding free_functs
free_functs-comps o [] d = refl
free_functs-comps o (f ∷ fs) d = elim (Bool-cases (f.owner_ptr == o)) [
  | inl y ↦
      rw (y, free_functs) (free_functs-comps o fs _ ∙ free_funct-comps f (unlink_funct f.off d))
  | inr n ↦ rw (n, free_functs) (free_functs-comps o fs d)
]

free_oldname-comps : (o : Option Oldname) (d : HalData) → (free_oldname o d).comp_list ≡ d.comp_list
unfolding free_oldname_struct
free_oldname-comps none d = refl
free_oldname-comps (some o) d = refl

free_param-comps : (p : Param) (d : HalData) → (free_param_struct p d).comp_list ≡ d.comp_list
unfolding free_param_struct
free_param-comps p d = free_oldname-comps p.oldname d

free_params-comps :
    (o : ℕ) (ps : List Param) (d : HalData) → (free_params o ps d).comp_list ≡ d.comp_list
unfolding free_params free_param_struct
free_params-comps o [] d = refl
free_params-comps o (p ∷ ps) d = elim (Bool-cases (p.owner_ptr == o)) [
  | inl y ↦
      rw (y, free_params) (free_params-comps o ps _ ∙ free_param-comps p (unlink_param p.off d))
  | inr n ↦ rw (n, free_params) (free_params-comps o ps d)
]

pub free_comp-comps : (c : Comp) (d : HalData) → (free_comp_struct c d).comp_list ≡ d.comp_list
unfolding free_comp_struct
free_comp-comps c d = free_params-comps c.off _ _ ∙ free_functs-comps c.off d.funct_list d

fresh-keeps :
    (size : ℕ) (make : ℕ → Comp) (d : HalData)
    → let d' = (fresh make (shmalloc_dn size d)).1 in
      (d'.comp_list ≡ d.comp_list) × (d'.state ≡ d.state)
unfolding shmalloc_dn
fresh-keeps size make d = ground arith

pub alloc_comp-keeps :
    (sizes : Sizes) (free : List Comp) (d : HalData)
    → d.comp_free ≡ free
    → let d' = (halpr_alloc_comp_struct sizes d).1 in
      (d'.comp_list ≡ d.comp_list) × (d'.state ≡ d.state)
unfolding halpr_alloc_comp_struct
alloc_comp-keeps sizes [] d q =
    rw (q, halpr_alloc_comp_struct)
      (fresh-keeps sizes.of_comp (λ off. emptied_comp (unset_comp sizes off)) d)
alloc_comp-keeps sizes (c ∷ cs) d q = rw (q, halpr_alloc_comp_struct) (refl, refl)

fresh_unnamed :
    (sizes : Sizes) (size : ℕ) (d : HalData) (c : Comp)
    → (fresh (λ off. emptied_comp (unset_comp sizes off)) (shmalloc_dn size d)).0 ≡ some c
    → c.name ≡ []
unfolding shmalloc_dn
fresh_unnamed sizes size d c e = ground arith

pub alloc_comp_unnamed :
    (sizes : Sizes) (free : List Comp) (d : HalData)
    → d.comp_free ≡ free
    → (c : Comp) → (halpr_alloc_comp_struct sizes d).0 ≡ some c
    → c.name ≡ []
unfolding halpr_alloc_comp_struct
alloc_comp_unnamed sizes [] d q c e =
    fresh_unnamed sizes sizes.of_comp d c (rw (q, halpr_alloc_comp_struct) at e)
alloc_comp_unnamed sizes (x ∷ xs) d q c e = ground arith

fresh_param-keeps :
    (size : ℕ) (make : ℕ → Param) (d : HalData)
    → (fresh make (shmalloc_dn size d)).1.param_list ≡ d.param_list
unfolding shmalloc_dn
fresh_param-keeps size make d = ground arith

pub alloc_param-keeps :
    (sizes : Sizes) (free : List Param) (d : HalData)
    → d.param_free ≡ free
    → (alloc_param_struct sizes d).1.param_list ≡ d.param_list
unfolding alloc_param_struct
alloc_param-keeps sizes [] d q =
    rw (q, alloc_param_struct)
      (fresh_param-keeps sizes.of_param (λ off. emptied_param (unset_param sizes off)) d)
alloc_param-keeps sizes (p ∷ ps) d q = rw (q, alloc_param_struct) refl

free_oldname-params :
    (o : Option Oldname) (d : HalData) → (free_oldname o d).param_list ≡ d.param_list
unfolding free_oldname_struct
free_oldname-params none d = refl
free_oldname-params (some o) d = refl

pub free_param-params :
    (p : Param) (d : HalData) → (free_param_struct p d).param_list ≡ d.param_list
unfolding free_param_struct
free_param-params p d = free_oldname-params p.oldname d

fresh_funct-keeps :
    (size : ℕ) (make : ℕ → Funct) (d : HalData)
    → (fresh make (shmalloc_dn size d)).1.funct_list ≡ d.funct_list
unfolding shmalloc_dn
fresh_funct-keeps size make d = ground arith

pub alloc_funct-keeps :
    (sizes : Sizes) (free : List Funct) (d : HalData)
    → d.funct_free ≡ free
    → (alloc_funct_struct sizes d).1.funct_list ≡ d.funct_list
unfolding alloc_funct_struct
alloc_funct-keeps sizes [] d q =
    rw (q, alloc_funct_struct)
      (fresh_funct-keeps sizes.of_funct (λ off. emptied_funct (unset_funct sizes off)) d)
alloc_funct-keeps sizes (f ∷ fs) d q = rw (q, alloc_funct_struct) refl

pub free_funct-functs :
    (f : Funct) (d : HalData) → f.users ≡ 0 → (free_funct_struct f d).funct_list ≡ d.funct_list
unfolding free_funct_struct
free_funct-functs f d u = ground (arith, u)

fresh_pin-keeps :
    (size : ℕ) (make : ℕ → Pin) (d : HalData)
    → let d' = (fresh make (shmalloc_dn size d)).1 in
      (d'.pin_list ≡ d.pin_list) × (d'.comp_list ≡ d.comp_list)
unfolding shmalloc_dn
fresh_pin-keeps size make d = ground arith

pub alloc_pin-keeps :
    (sizes : Sizes) (free : List Pin) (d : HalData)
    → d.pin_free ≡ free
    → let d' = (alloc_pin_struct sizes d).1 in
      (d'.pin_list ≡ d.pin_list) × (d'.comp_list ≡ d.comp_list)
unfolding alloc_pin_struct
alloc_pin-keeps sizes [] d q =
    rw (q, alloc_pin_struct)
      (fresh_pin-keeps sizes.of_pin (λ off. emptied_pin (unset_pin sizes off)) d)
alloc_pin-keeps sizes (p ∷ ps) d q = rw (q, alloc_pin_struct) (refl, refl)

pub free_pin-pins : (p : Pin) (d : HalData) → (free_pin_struct p d).pin_list ≡ d.pin_list
unfolding free_pin_struct free_oldname_struct
free_pin-pins p d = ground arith
