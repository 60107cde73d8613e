-- ===== src/Hal/Structs/Same.antt =====
-- Taking a structure and giving it back leaves the lists of functions, pins and parameters alone.
use real_time_system.Common.{ℕ, ◌≡◌, refl, some, List, [], ◌∷◌, arith}
use real_time_system.Hal.Data.{HalData, Sizes, Funct, Pin, Param, Thread}
use real_time_system.Hal.Pool.{shmalloc_dn}
use real_time_system.Hal.Structs.{
  alloc_funct_struct, alloc_pin_struct, alloc_param_struct, free_funct_struct, free_pin_struct,
  free_param_struct, free_oldname_struct, fresh, emptied_funct, emptied_pin, emptied_param,
  unset_funct, unset_pin, unset_param, alloc_thread_struct, emptied_thread, unset_thread,
}

abbrev pub SameLists : HalData → HalData → Type 0
SameLists d e =
    (e.funct_list ≡ d.funct_list) × (e.pin_list ≡ d.pin_list) × (e.param_list ≡ d.param_list)

fresh_same :
    {A : Type 0} (size : ℕ) (make : ℕ → A) (d : HalData)
    → SameLists d (fresh make (shmalloc_dn size d)).1
unfolding shmalloc_dn
fresh_same size make d = ground arith

pub alloc_funct_same :
    (sizes : Sizes) (free : List Funct) (d : HalData)
    → d.funct_free ≡ free
    → SameLists d (alloc_funct_struct sizes d).1
unfolding alloc_funct_struct
alloc_funct_same sizes [] d q =
    rw (q, alloc_funct_struct)
      (fresh_same sizes.of_funct (λ off. emptied_funct (unset_funct sizes off)) d)
alloc_funct_same sizes (p ∷ ps) d q = rw (q, alloc_funct_struct) (refl, refl, refl)

pub alloc_pin_same :
    (sizes : Sizes) (free : List Pin) (d : HalData)
    → d.pin_free ≡ free
    → SameLists d (alloc_pin_struct sizes d).1
unfolding alloc_pin_struct
alloc_pin_same sizes [] d q =
    rw (q, alloc_pin_struct) (fresh_same sizes.of_pin (λ off. emptied_pin (unset_pin sizes off)) d)
alloc_pin_same sizes (p ∷ ps) d q = rw (q, alloc_pin_struct) (refl, refl, refl)

pub alloc_param_same :
    (sizes : Sizes) (free : List Param) (d : HalData)
    → d.param_free ≡ free
    → SameLists d (alloc_param_struct sizes d).1
unfolding alloc_param_struct
alloc_param_same sizes [] d q =
    rw (q, alloc_param_struct)
      (fresh_same sizes.of_param (λ off. emptied_param (unset_param sizes off)) d)
alloc_param_same sizes (p ∷ ps) d q = rw (q, alloc_param_struct) (refl, refl, refl)

pub free_param_same : (p : Param) (d : HalData) → SameLists d (free_param_struct p d)
unfolding free_param_struct free_oldname_struct
free_param_same p d = ground arith

pub free_pin_same : (p : Pin) (d : HalData) → SameLists d (free_pin_struct p d)
unfolding free_pin_struct free_oldname_struct
free_pin_same p d = ground arith

pub free_funct_same : (f : Funct) (d : HalData) → f.users ≡ 0 → SameLists d (free_funct_struct f d)
unfolding free_funct_struct
free_funct_same f d u = ground (arith, u)

fresh_threads :
    (size : ℕ) (make : ℕ → Thread) (d : HalData)
    → (fresh make (shmalloc_dn size d)).1.thread_list ≡ d.thread_list
unfolding shmalloc_dn
fresh_threads size make d = ground arith

pub alloc_thread_threads :
    (sizes : Sizes) (free : List Thread) (d : HalData)
    → d.thread_free ≡ free
    → (alloc_thread_struct sizes d).1.thread_list ≡ d.thread_list
unfolding alloc_thread_struct
alloc_thread_threads sizes [] d q =
    rw (q, alloc_thread_struct)
      (fresh_threads sizes.of_thread (λ off. emptied_thread (unset_thread sizes off)) d)
alloc_thread_threads sizes (p ∷ ps) d q = rw (q, alloc_thread_struct) refl

fresh_empty :
    (sizes : Sizes) (size : ℕ) (d : HalData) (t : Thread)
    → (fresh (λ off. emptied_thread (unset_thread sizes off)) (shmalloc_dn size d)).0 ≡ some t
    → (t.task_id ≡ 0) × (t.funct_list ≡ [])
unfolding shmalloc_dn
fresh_empty sizes size d t e = ground arith

-- A structure for a thread comes with task id 0 and no entries.
pub alloc_thread_empty :
    (sizes : Sizes) (free : List Thread) (d : HalData) (t : Thread)
    → d.thread_free ≡ free
    → (alloc_thread_struct sizes d).0 ≡ some t
    → (t.task_id ≡ 0) × (t.funct_list ≡ [])
unfolding alloc_thread_struct
alloc_thread_empty sizes [] d t q e =
    fresh_empty sizes sizes.of_thread d t (rw (q, alloc_thread_struct) at e)
alloc_thread_empty sizes (p ∷ ps) d t q e = ground arith
