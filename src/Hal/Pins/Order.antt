-- ===== src/Hal/Pins/Order.antt =====
-- The list of pins after `hal_pin_new`: its order, and what the names lead to.
use real_time_system.Common.{
  ℕ, ◌≡◌, refl, ◌∙◌, true, false, not, Option, none, some, List, ltb, length, einval, eperm,
}
use real_time_system.Common.Int.{ℤ, pos}
use real_time_system.Common.Names.{Name}
use real_time_system.Hal.Data.{HalData, HalType, Sizes, Comp, Pin, hal_name_len, hal_lock_load}
use real_time_system.Hal.Sorted.{insert_sorted, IsSorted}
use real_time_system.Hal.Structs.{alloc_pin_struct}
use real_time_system.Hal.Structs.Keeps.{alloc_pin-keeps, free_pin-pins}
use real_time_system.Hal.Calls.{locked, is_locked}
use real_time_system.Hal.Registry.{
  stored, Places, inserted-Places, Places-if, Kept, Kept-if, locked-Kept,
}
use real_time_system.Hal.Comps.{find_comp_by_id}
use real_time_system.Hal.Params.{shmchk}
use real_time_system.Hal.Params.Order.{shmchk-some}
use real_time_system.Hal.Pins.{
  body_of, guarded_lock, guarded_name, pin_type, new_pin, dummy_of, point, placed, allocated,
  checked, hal_pin_new,
}

abbrev pub name_of : Pin → Name
name_of p = p.name

abbrev pub list_of : HalData → List Pin
list_of d = d.pin_list

-- The pin that the caller asks for, not linked to a signal.
abbrev pub IsAsked : HalType → ℤ → Pin → Type 0
IsAsked type addr p = (p.type ≡ type) × (pos p.data_ptr_addr ≡ addr) × (p.signal ≡ 0)

placed-Places :
    (Asked : Pin → Type 0) (p : Pin) (d d1 : HalData) (o : Option (List Pin))
    → insert_sorted name_of p d1.pin_list ≡ o
    → d1.pin_list ≡ d.pin_list
    → IsSorted name_of d.pin_list
    → Asked p
    → Places name_of list_of (λ _ _. refl) p.name Asked d (placed p d1 o)
placed-Places Asked p d d1 none q k s a = free_pin-pins p d1 ∙ k
placed-Places Asked p d d1 (some ps) q k s a =
    inserted-Places name_of list_of (λ _ _. refl) Asked p d d1 (record d1 { pin_list = ps }) ps 0 q
      k refl s a

allocated-Places :
    (sizes : Sizes) (name : Name) (type : HalType) (addr : ℤ) (off : ℕ) (c : Comp) (d : HalData)
    (o : Option Pin) (d1 : HalData)
    → pos off ≡ addr
    → d1.pin_list ≡ d.pin_list
    → IsSorted name_of d.pin_list
    → Places name_of list_of
        (λ _ _. refl)
        (stored name)
        (IsAsked type addr)
        d
        (allocated sizes name type off c (o, d1))
allocated-Places sizes name type addr off c d none d1 a k s = k
allocated-Places sizes name type addr off c d (some p) d1 a k s =
    placed-Places (IsAsked type addr) (new_pin name type off c p) d
      (point sizes off (dummy_of sizes c p) d1) _ refl k s (refl, a, refl)

checked-Places :
    (sizes : Sizes) (name : Name) (type : HalType) (addr : ℤ) (d : HalData) (a : Option ℕ)
    (o : Option Comp)
    → shmchk addr ≡ a
    → IsSorted name_of d.pin_list
    → Places name_of list_of
        (λ _ _. refl)
        (stored name)
        (IsAsked type addr)
        d
        (checked sizes name type d a o)
checked-Places sizes name type addr d a none q s = refl
checked-Places sizes name type addr d none (some c) q s = refl
checked-Places sizes name type addr d (some off) (some c) q s =
    Places-if name_of list_of (λ _ _. refl) (stored name) (IsAsked type addr) d (ltb 0 c.ready)
      einval (allocated sizes name type off c (alloc_pin_struct sizes d))
      (allocated-Places sizes name type addr off c d (alloc_pin_struct sizes d).0
        (alloc_pin_struct sizes d).1 (shmchk-some addr off q)
        (alloc_pin-keeps sizes d.pin_free d refl).0 s)

-- With the mutex free and the pins in order of their names, `hal_pin_new` always returns at an address that
-- can be read, with the mutex free. After an error the list of pins is as it was. After 0 it is in order, the name leads to a pin
-- of the type and address asked for that is linked to no signal, and every other name leads to what it
-- did.
pub pin_new-Kept :
    (sizes : Sizes) (name : Name) (type : HalType) (addr : ℤ) (comp_id : ℕ) (d : HalData)
    → d.mutex ≡ false
    → IsSorted name_of d.pin_list
    → Kept name_of list_of
        (λ _ _. refl)
        (stored name)
        (IsAsked type addr)
        d
        (hal_pin_new sizes name type (some addr) comp_id (some d))
unfolding hal_pin_new
pin_new-Kept sizes name type addr id d m s =
    let n = stored name in
    let Asked = IsAsked type addr in
    let body = body_of sizes name type addr id in
    Kept-if name_of list_of (λ _ _. refl) n Asked d (not (pin_type type)) einval
      (guarded_name sizes name type addr id d) m
      (Kept-if name_of list_of (λ _ _. refl) n Asked d (ltb hal_name_len (length name)) einval
        (guarded_lock sizes name type addr id d) m
        (Kept-if name_of list_of (λ _ _. refl) n Asked d (is_locked hal_lock_load d) eperm
          (locked body d) m
          (locked-Kept name_of list_of (λ _ _. refl) n Asked d body m
            (checked-Places sizes name type addr (record d { mutex = true }) (shmchk addr)
              (find_comp_by_id id d.comp_list) refl s))))
