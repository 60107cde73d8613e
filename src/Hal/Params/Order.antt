-- ===== src/Hal/Params/Order.antt =====
-- The list of parameters after `hal_param_new`: its order, and what the names lead to.
use real_time_system.Common.{
  ℕ, ◌≡◌, refl, ◌∙◌, true, false, not, Option, none, some, List, ltb, length, arith, einval, eperm,
}
use real_time_system.Common.Int.{ℤ, pos, negsuc}
use real_time_system.Common.Names.{Name}
use real_time_system.Hal.Data.{
  HalData, HalType, ParamDir, Sizes, Comp, Param, hal_name_len, hal_lock_load,
}
use real_time_system.Hal.Sorted.{insert_sorted, IsSorted}
use real_time_system.Hal.Structs.{alloc_param_struct}
use real_time_system.Hal.Structs.Keeps.{alloc_param-keeps, free_param-params}
use real_time_system.Hal.Calls.{locked, is_locked}
use real_time_system.Hal.Registry.{
  stored, Places, inserted-Places, Places-if, Kept, Kept-if, locked-Kept,
}
use real_time_system.Hal.Comps.{find_comp_by_id}
use real_time_system.Hal.Params.{
  body_of, guarded_lock, guarded_name, guarded_dir, shmchk, param_type, param_dir, new_param,
  placed, allocated, checked, hal_param_new,
}

abbrev pub name_of : Param → Name
name_of p = p.name

abbrev pub list_of : HalData → List Param
list_of d = d.param_list

placed-Places :
    (Asked : Param → Type 0) (p : Param) (d d1 : HalData) (o : Option (List Param))
    → insert_sorted name_of p d1.param_list ≡ o
    → d1.param_list ≡ d.param_list
    → IsSorted name_of d.param_list
    → Asked p
    → Places name_of list_of (λ _ _. refl) p.name Asked d (placed p d1 o)
placed-Places Asked p d d1 none q k s a = free_param-params p d1 ∙ k
placed-Places Asked p d d1 (some ps) q k s a =
    inserted-Places name_of list_of (λ _ _. refl) Asked p d d1 (record d1 { param_list = ps }) ps 0
      q k refl s a

-- The parameter that the caller asks for.
abbrev pub IsAsked : HalType → ParamDir → ℤ → Param → Type 0
IsAsked type dir data_addr p = (p.type ≡ type) × (p.dir ≡ dir) × (pos p.data_ptr ≡ data_addr)

allocated-Places :
    (name : Name) (type : HalType) (dir : ParamDir) (addr : ℤ) (off : ℕ) (c : Comp) (d : HalData)
    (o : Option Param) (d1 : HalData)
    → pos off ≡ addr
    → d1.param_list ≡ d.param_list
    → IsSorted name_of d.param_list
    → Places name_of list_of
        (λ _ _. refl)
        (stored name)
        (IsAsked type dir addr)
        d
        (allocated (new_param name type dir off c) (o, d1))
allocated-Places name type dir addr off c d none d1 a k s = k
allocated-Places name type dir addr off c d (some p) d1 a k s =
    placed-Places (IsAsked type dir addr) (new_param name type dir off c p) d d1 _ refl k s
      (refl, refl, a)

pub shmchk-some : (addr : ℤ) (off : ℕ) → shmchk addr ≡ some off → pos off ≡ addr
unfolding shmchk
shmchk-some (pos n) off e = ground arith
shmchk-some (negsuc n) off e = cc

checked-Places :
    (sizes : Sizes) (name : Name) (type : HalType) (dir : ParamDir) (addr : ℤ) (d : HalData)
    (a : Option ℕ) (o : Option Comp)
    → shmchk addr ≡ a
    → IsSorted name_of d.param_list
    → Places name_of list_of
        (λ _ _. refl)
        (stored name)
        (IsAsked type dir addr)
        d
        (checked sizes (new_param name type dir) d a o)
checked-Places sizes name type dir addr d a none q s = refl
checked-Places sizes name type dir addr d none (some c) q s = refl
checked-Places sizes name type dir addr d (some off) (some c) q s =
    Places-if name_of list_of (λ _ _. refl) (stored name) (IsAsked type dir addr) d (ltb 0 c.ready)
      einval (allocated (new_param name type dir off c) (alloc_param_struct sizes d))
      (allocated-Places name type dir addr off c d (alloc_param_struct sizes d).0
        (alloc_param_struct sizes d).1 (shmchk-some addr off q)
        (alloc_param-keeps sizes d.param_free d refl) s)

-- With the mutex free and the parameters in order of their names, `hal_param_new` always returns, with
-- the mutex free. After an error the list is as it was. After 0 it is in order, the name leads to a
-- parameter of the type, direction and address asked for, and every other name leads to what it did.
pub param_new-Kept :
    (sizes : Sizes) (name : Name) (type : HalType) (dir : ParamDir) (data_addr : ℤ) (comp_id : ℕ)
    (d : HalData)
    → d.mutex ≡ false
    → IsSorted name_of d.param_list
    → Kept name_of list_of
        (λ _ _. refl)
        (stored name)
        (IsAsked type dir data_addr)
        d
        (hal_param_new sizes name type dir data_addr comp_id (some d))
unfolding hal_param_new
param_new-Kept sizes name type dir addr id d m s =
    let n = stored name in
    let Asked = IsAsked type dir addr in
    let body = body_of sizes name type dir addr id in
    Kept-if name_of list_of (λ _ _. refl) n Asked d (not (param_type type)) einval
      (guarded_dir sizes name type dir addr id d) m
      (Kept-if name_of list_of (λ _ _. refl) n Asked d (not (param_dir dir)) einval
        (guarded_name sizes name type dir addr id d) m
        (Kept-if name_of list_of (λ _ _. refl) n Asked d (ltb hal_name_len (length name)) einval
          (guarded_lock sizes name type dir addr id d) m
          (Kept-if name_of list_of (λ _ _. refl) n Asked d (is_locked hal_lock_load d) eperm
            (locked body d) m
            (locked-Kept name_of list_of (λ _ _. refl) n Asked d body m
              (checked-Places sizes name type dir addr (record d { mutex = true }) (shmchk addr)
                (find_comp_by_id id d.comp_list) refl s)))))
