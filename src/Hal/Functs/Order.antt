-- ===== src/Hal/Functs/Order.antt =====
-- The list of functions after the part of `hal_export_funct` under the mutex.
use real_time_system.Common.{
  ℕ, ◌≡◌, true, false, refl, ◌∙◌, Option, none, some, List, ltb, length, einval, eperm,
}
use real_time_system.Common.Names.{Name}
use real_time_system.Hal.Data.{HalData, Sizes, Comp, Funct, hal_name_len, hal_lock_load}
use real_time_system.Hal.Sorted.{insert_sorted, IsSorted}
use real_time_system.Hal.Structs.{alloc_funct_struct}
use real_time_system.Hal.Structs.Keeps.{alloc_funct-keeps, free_funct-functs}
use real_time_system.Hal.Calls.{locked, is_locked}
use real_time_system.Hal.Registry.{
  stored, Places, inserted-Places, Places-if, Kept, Kept-if, locked-Kept,
}
use real_time_system.Hal.Comps.{find_comp_by_id}
use real_time_system.Hal.Functs.{
  Export, new_funct, placed, allocated, is_user, exported, body_of, guarded_lock, export_funct,
}

abbrev pub name_of : Funct → Name
name_of f = f.name

abbrev pub list_of : HalData → List Funct
list_of d = d.funct_list

-- The function that the caller asks for, with no users yet.
abbrev pub IsExported : Export → Funct → Type 0
IsExported x f =
    (f.users ≡ 0)
    × (f.funct ≡ x.funct)
    × (f.arg ≡ x.arg)
    × (f.uses_fp ≡ x.uses_fp)
    × (f.reentrant ≡ x.reentrant)

placed-Places :
    (Asked : Funct → Type 0) (f : Funct) (d d1 : HalData) (o : Option (List Funct))
    → insert_sorted name_of f d1.funct_list ≡ o
    → d1.funct_list ≡ d.funct_list
    → f.users ≡ 0
    → IsSorted name_of d.funct_list
    → Asked f
    → Places name_of list_of (λ _ _. refl) f.name Asked d (placed f d1 o)
placed-Places Asked f d d1 none q k u s a = free_funct-functs f d1 u ∙ k
placed-Places Asked f d d1 (some fs) q k u s a =
    inserted-Places name_of list_of (λ _ _. refl) Asked f d d1 (record d1 { funct_list = fs }) fs
      f.off q k refl s a

allocated-Places :
    (name : Name) (x : Export) (c : Comp) (d : HalData) (o : Option Funct) (d1 : HalData)
    → d1.funct_list ≡ d.funct_list
    → IsSorted name_of d.funct_list
    → Places name_of list_of
        (λ _ _. refl)
        (stored name)
        (IsExported x)
        d
        (allocated (new_funct name x c) (o, d1))
allocated-Places name x c d none d1 k s = k
allocated-Places name x c d (some f) d1 k s =
    placed-Places (IsExported x) (new_funct name x c f) d d1 _ refl k refl s
      (refl, refl, refl, refl, refl)

exported-Places :
    (sizes : Sizes) (name : Name) (x : Export) (d : HalData) (o : Option Comp)
    → IsSorted name_of d.funct_list
    → Places name_of list_of
        (λ _ _. refl)
        (stored name)
        (IsExported x)
        d
        (exported sizes name x d o)
exported-Places sizes name x d none s = refl
exported-Places sizes name x d (some c) s =
    let made = allocated (new_funct name x c) (alloc_funct_struct sizes d) in
    Places-if name_of list_of (λ _ _. refl) (stored name) (IsExported x) d (is_user c.type) einval _
      (Places-if name_of list_of (λ _ _. refl) (stored name) (IsExported x) d (ltb 0 c.ready) einval
        made
        (allocated-Places name x c d (alloc_funct_struct sizes d).0 (alloc_funct_struct sizes d).1
          (alloc_funct-keeps sizes d.funct_free d refl) s))

-- With the mutex free and the functions in order of their names, the part of `hal_export_funct` under
-- the mutex always returns, with the mutex free. After an error the list is as it was. After 0 it is in
-- order, the name leads to a function with no users and with the code, argument and flags asked for,
-- and every other name leads to what it did.
pub export-Kept :
    (sizes : Sizes) (name : Name) (x : Export) (comp_id : ℕ) (d : HalData)
    → d.mutex ≡ false
    → IsSorted name_of d.funct_list
    → Kept name_of list_of
        (λ _ _. refl)
        (stored name)
        (IsExported x)
        d
        (export_funct sizes name x comp_id (some d))
unfolding export_funct
export-Kept sizes name x id d m s =
    let n = stored name in
    let body = body_of sizes name x id in
    Kept-if name_of list_of (λ _ _. refl) n (IsExported x) d (ltb hal_name_len (length name)) einval
      (guarded_lock sizes name x id d) m
      (Kept-if name_of list_of (λ _ _. refl) n (IsExported x) d (is_locked hal_lock_load d) eperm
        (locked body d) m
        (locked-Kept name_of list_of (λ _ _. refl) n (IsExported x) d body m
          (exported-Places sizes name x (record d { mutex = true }) (find_comp_by_id id d.comp_list)
            s)))
