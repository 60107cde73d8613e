-- ===== src/Hal/Tidy/Registering.antt =====
-- `hal_param_new`, `hal_pin_new` and the part of `hal_export_funct` under the mutex keep the lists in
-- order.
use real_time_system.Common.{
  ℕ, ◌≡◌, refl, true, not, Option, none, some, List, ltb, length, einval, eperm, arith,
}
use real_time_system.Common.Int.{ℤ}
use real_time_system.Common.Names.{Name}
use real_time_system.Hal.Data.{
  HalData, HalType, ParamDir, Sizes, Comp, Funct, Pin, Param, hal_name_len, hal_lock_load,
}
use real_time_system.Hal.Sorted.{insert_sorted, insert_sorted-IsSorted}
use real_time_system.Hal.Structs.{
  alloc_funct_struct, alloc_pin_struct, alloc_param_struct, free_funct_struct, free_pin_struct,
  free_param_struct,
}
use real_time_system.Hal.Calls.{is_locked}
use real_time_system.Hal.Comps.{find_comp_by_id}
use real_time_system.Hal.Params
use real_time_system.Hal.Params.{shmchk, hal_param_new, new_param}
use real_time_system.Hal.Pins
use real_time_system.Hal.Pins.{hal_pin_new, new_pin, point, runs_at, dummy_of}
use real_time_system.Hal.Functs
use real_time_system.Hal.Functs.{Export, export_funct, new_funct, is_user}
use real_time_system.Hal.Tidy.{
  IsTidy, Tidies, Tidies-if, Opens-if, locked-Opens, IsFree, Frees, keep-Frees, IsSorted-map,
  IsTidy-same,
}
use real_time_system.Hal.Structs.Same.{
  alloc_funct_same, alloc_pin_same, alloc_param_same, free_param_same, free_pin_same,
  free_funct_same,
}

placed_param-Tidies :
    (p : Param) (d : HalData) (o : Option (List Param))
    → insert_sorted (λ (q : Param). q.name) p d.param_list ≡ o
    → IsTidy d
    → Tidies (Params.placed p d o)
placed_param-Tidies p d none q t = IsTidy-same d (free_param_struct p d) (free_param_same p d) t
placed_param-Tidies p d (some ps) q t =
    (t.0, t.1, insert_sorted-IsSorted (λ (q : Param). q.name) p d.param_list ps q t.2)

placed_pin-Tidies :
    (p : Pin) (d : HalData) (o : Option (List Pin))
    → insert_sorted (λ (q : Pin). q.name) p d.pin_list ≡ o
    → IsTidy d
    → Tidies (Pins.placed p d o)
placed_pin-Tidies p d none q t = IsTidy-same d (free_pin_struct p d) (free_pin_same p d) t
placed_pin-Tidies p d (some ps) q t =
    (t.0, insert_sorted-IsSorted (λ (q : Pin). q.name) p d.pin_list ps q t.1, t.2)

placed_funct-Tidies :
    (f : Funct) (d : HalData) (o : Option (List Funct))
    → insert_sorted (λ (g : Funct). g.name) f d.funct_list ≡ o
    → f.users ≡ 0
    → IsTidy d
    → Tidies (Functs.placed f d o)
placed_funct-Tidies f d none q u t = IsTidy-same d (free_funct_struct f d) (free_funct_same f d u) t
placed_funct-Tidies f d (some fs) q u t =
    (insert_sorted-IsSorted (λ (g : Funct). g.name) f d.funct_list fs q t.0, t.1, t.2)

runs_at_named : (sizes : Sizes) (off : ℕ) (f : Funct) → (runs_at sizes off f).name ≡ f.name
runs_at_named sizes off f = ground arith

point-IsTidy :
    (sizes : Sizes) (off ptr : ℕ) (d : HalData) → IsTidy d → IsTidy (point sizes off ptr d)
point-IsTidy sizes off ptr d t = (
  IsSorted-map (λ (f : Funct). f.name) (runs_at sizes off) (runs_at_named sizes off) d.funct_list
      t.0,
  t.1,
  t.2,
)

allocated_param-Tidies :
    (name : Name) (type : HalType) (dir : ParamDir) (off : ℕ) (c : Comp) (o : Option Param)
    (d : HalData)
    → IsTidy d
    → Tidies (Params.allocated (new_param name type dir off c) (o, d))
allocated_param-Tidies name type dir off c none d t = t
allocated_param-Tidies name type dir off c (some p) d t =
    placed_param-Tidies (new_param name type dir off c p) d _ refl t

allocated_pin-Tidies :
    (sizes : Sizes) (name : Name) (type : HalType) (off : ℕ) (c : Comp) (o : Option Pin)
    (d : HalData)
    → IsTidy d
    → Tidies (Pins.allocated sizes name type off c (o, d))
allocated_pin-Tidies sizes name type off c none d t = t
allocated_pin-Tidies sizes name type off c (some p) d t =
    placed_pin-Tidies (new_pin name type off c p) _ _ refl
      (point-IsTidy sizes off (dummy_of sizes c p) d t)

allocated_funct-Tidies :
    (name : Name) (x : Export) (c : Comp) (o : Option Funct) (d : HalData)
    → IsTidy d
    → Tidies (Functs.allocated (new_funct name x c) (o, d))
allocated_funct-Tidies name x c none d t = t
allocated_funct-Tidies name x c (some f) d t =
    placed_funct-Tidies (new_funct name x c f) d _ refl refl t

checked_param-Tidies :
    (sizes : Sizes) (name : Name) (type : HalType) (dir : ParamDir) (d : HalData) (a : Option ℕ)
    (o : Option Comp)
    → IsTidy d
    → Tidies (Params.checked sizes (new_param name type dir) d a o)
checked_param-Tidies sizes name type dir d a none t = t
checked_param-Tidies sizes name type dir d none (some c) t = t
checked_param-Tidies sizes name type dir d (some off) (some c) t =
    Tidies-if (ltb 0 c.ready) einval d _ t (
      allocated_param-Tidies name type dir off c _ _ (
        IsTidy-same d (alloc_param_struct sizes d).1 (alloc_param_same sizes d.param_free d refl)
          t))

checked_pin-Tidies :
    (sizes : Sizes) (name : Name) (type : HalType) (d : HalData) (a : Option ℕ) (o : Option Comp)
    → IsTidy d
    → Tidies (Pins.checked sizes name type d a o)
checked_pin-Tidies sizes name type d a none t = t
checked_pin-Tidies sizes name type d none (some c) t = t
checked_pin-Tidies sizes name type d (some off) (some c) t =
    Tidies-if (ltb 0 c.ready) einval d _ t (
      allocated_pin-Tidies sizes name type off c _ _
        (IsTidy-same d (alloc_pin_struct sizes d).1 (alloc_pin_same sizes d.pin_free d refl) t))

exported-Tidies :
    (sizes : Sizes) (name : Name) (x : Export) (d : HalData) (o : Option Comp)
    → IsTidy d
    → Tidies (Functs.exported sizes name x d o)
exported-Tidies sizes name x d none t = t
exported-Tidies sizes name x d (some c) t = Tidies-if (is_user c.type) einval d _ t (
    Tidies-if (ltb 0 c.ready) einval d _ t (
      allocated_funct-Tidies name x c _ _ (
        IsTidy-same d (alloc_funct_struct sizes d).1 (alloc_funct_same sizes d.funct_free d refl)
          t)))

pub param_new-Frees :
    (sizes : Sizes) (name : Name) (type : HalType) (dir : ParamDir) (addr : ℤ) (id : ℕ)
    (h : Option HalData)
    → IsFree h
    → Frees (hal_param_new sizes name type dir addr id h)
unfolding hal_param_new
param_new-Frees sizes name type dir addr id none f = f
param_new-Frees sizes name type dir addr id (some d) (m, t) =
    let body = Params.body_of sizes name type dir addr id in
    keep-Frees _ (
      Opens-if (not (Params.param_type type)) einval d _ (m, t)
        (Opens-if (not (Params.param_dir dir)) einval d _ (m, t)
          (Opens-if (ltb hal_name_len (length name)) einval d _ (m, t)
            (Opens-if (is_locked hal_lock_load d) eperm d _ (m, t)
              (locked-Opens body d m (
                checked_param-Tidies sizes name type dir (record d { mutex = true }) (shmchk addr)
                  (find_comp_by_id id d.comp_list) t))))))

pub pin_new-Frees :
    (sizes : Sizes) (name : Name) (type : HalType) (addr : ℤ) (id : ℕ) (h : Option HalData)
    → IsFree h
    → Frees (hal_pin_new sizes name type (some addr) id h)
unfolding hal_pin_new
pin_new-Frees sizes name type addr id none f = f
pin_new-Frees sizes name type addr id (some d) (m, t) =
    let body = Pins.body_of sizes name type addr id in
    keep-Frees _ (
      Opens-if (not (Pins.pin_type type)) einval d _ (m, t)
        (Opens-if (ltb hal_name_len (length name)) einval d _ (m, t)
          (Opens-if (is_locked hal_lock_load d) eperm d _ (m, t)
            (locked-Opens body d m (
              checked_pin-Tidies sizes name type (record d { mutex = true }) (shmchk addr)
                (find_comp_by_id id d.comp_list) t)))))

pub export-Frees :
    (sizes : Sizes) (name : Name) (x : Export) (id : ℕ) (h : Option HalData)
    → IsFree h
    → Frees (export_funct sizes name x id h)
unfolding export_funct
export-Frees sizes name x id none f = f
export-Frees sizes name x id (some d) (m, t) =
    let body = Functs.body_of sizes name x id in
    keep-Frees _ (
      Opens-if (ltb hal_name_len (length name)) einval d _ (m, t)
        (Opens-if (is_locked hal_lock_load d) eperm d _ (m, t)
          (locked-Opens body d m (
            exported-Tidies sizes name x (record d { mutex = true })
              (find_comp_by_id id d.comp_list) t))))
