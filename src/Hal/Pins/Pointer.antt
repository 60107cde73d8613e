-- ===== src/Hal/Pins/Pointer.antt =====
-- Where the pointer of the component leads after `hal_pin_new`.
use real_time_system.Common.{
  ℕ, ◌≡◌, refl, sym, ◌∙◌, ap, Bool, true, false, not, Option, none, some, List, ◌∷◌, ltb, length,
  arith, einval, eperm, Errno, Result, ok, err, Outcome, done, hang, fault, if◌then◌else◌,
}
use real_time_system.Common.Int.{ℤ, pos, pos_part}
use real_time_system.Common.Names.{Name}
use real_time_system.Hal.Data.{HalData, HalType, Sizes, Comp, Pin, hal_name_len, hal_lock_load}
use real_time_system.Hal.Sorted.{insert_sorted, find_by_name, find-insert_sorted}
use real_time_system.Hal.Structs.{alloc_pin_struct}
use real_time_system.Hal.Structs.Keeps.{alloc_pin-keeps}
use real_time_system.Hal.Calls.{locked, unlock, keep, is_locked}
use real_time_system.Hal.Registry.{stored}
use real_time_system.Hal.Comps.{find_comp_by_id}
use real_time_system.Hal.Params.{shmchk}
use real_time_system.Hal.Params.Order.{shmchk-some}
use real_time_system.Hal.Pins.{
  body_of, guarded_lock, guarded_name, pin_type, new_pin, dummy_of, point, pointer_at, placed,
  allocated, checked, hal_pin_new,
}
use real_time_system.Hal.Pins.Order.{name_of}

-- The name leads to a pin, and the word at the address to that pin's dummy signal, as the component maps
-- the block.
module _ (sizes : Sizes) (n : Name) (addr : ℤ) (id : ℕ) where
  abbrev pub LeadsTo : HalData → Type 0
  LeadsTo d =
      (c : Comp) × (p : Pin) × (find_comp_by_id id d.comp_list ≡ some c)
      × (find_by_name name_of n d.pin_list ≡ some p)
      × (pointer_at (pos_part addr) d.pin_pointers ≡ some (dummy_of sizes c p))

  abbrev pub Leads : Outcome (Result ℕ × HalData) → Type 0
  Leads (done (ok r, d)) = LeadsTo d
  Leads _ = Unit

  abbrev pub Ends : Outcome (Result ℕ × Option HalData) → Type 0
  Ends (done (ok r, some d)) = LeadsTo d
  Ends _ = Unit

  Ends-keep : (o : Outcome (Result ℕ × HalData)) → Leads o → Ends (keep o)
  Ends-keep (done (ok r, d)) l = l
  Ends-keep (done (err e, d)) l = tt
  Ends-keep hang l = tt
  Ends-keep fault l = tt

  unlock-Leads : (o : Outcome (Result ℕ × HalData)) → Leads o → Leads (unlock o)
  unlock-Leads (done (ok r, d)) l = l
  unlock-Leads (done (err e, d)) l = tt
  unlock-Leads hang l = tt
  unlock-Leads fault l = tt

  Leads-if :
      (b : Bool) (e : Errno) (d : HalData) (o : Outcome (Result ℕ × HalData))
      → Leads o
      → Leads (if b then done (err e, d) else o)
  Leads-if true e d o l = tt
  Leads-if false e d o l = l

  locked-Leads :
      (body : HalData → Outcome (Result ℕ × HalData)) (b : Bool) (d : HalData)
      → Leads (body (record d { mutex = true }))
      → Leads (if b then hang else unlock (body (record d { mutex = true })))
  locked-Leads body true d l = tt
  locked-Leads body false d l = unlock-Leads (body (record d { mutex = true })) l

pointer_at_first : (off ptr : ℕ) (ws : List (ℕ × ℕ)) → pointer_at off ((off, ptr) ∷ ws) ≡ some ptr
unfolding pointer_at
pointer_at_first off ptr ws = ground arith

placed-Leads :
    (sizes : Sizes) (addr : ℤ) (id : ℕ) (c : Comp) (p : Pin) (d : HalData) (o : Option (List Pin))
    → insert_sorted name_of p d.pin_list ≡ o
    → find_comp_by_id id d.comp_list ≡ some c
    → pointer_at (pos_part addr) d.pin_pointers ≡ some (dummy_of sizes c p)
    → Leads sizes p.name addr id (placed p d o)
placed-Leads sizes addr id c p d none q f l = tt
placed-Leads sizes addr id c p d (some ps) q f l =
    (c, p, f, (find-insert_sorted name_of p d.pin_list ps q).0, l)

allocated-Leads :
    (sizes : Sizes) (name : Name) (type : HalType) (addr : ℤ) (id off : ℕ) (c : Comp)
    (o : Option Pin) (d : HalData)
    → pos off ≡ addr
    → find_comp_by_id id d.comp_list ≡ some c
    → Leads sizes (stored name) addr id (allocated sizes name type off c (o, d))
allocated-Leads sizes name type addr id off c none d a f = tt
allocated-Leads sizes name type addr id off c (some p) d a f =
    placed-Leads sizes addr id c (new_pin name type off c p)
      (point sizes off (dummy_of sizes c p) d) _ refl f
      (ap (λ x. pointer_at (pos_part x) ((off, dummy_of sizes c p) ∷ d.pin_pointers)) (sym a)
        ∙ pointer_at_first off (dummy_of sizes c p) d.pin_pointers)

checked-Leads :
    (sizes : Sizes) (name : Name) (type : HalType) (addr : ℤ) (id : ℕ) (d : HalData) (a : Option ℕ)
    (o : Option Comp)
    → shmchk addr ≡ a
    → find_comp_by_id id d.comp_list ≡ o
    → Leads sizes (stored name) addr id (checked sizes name type d a o)
checked-Leads sizes name type addr id d a none q f = tt
checked-Leads sizes name type addr id d none (some c) q f = tt
checked-Leads sizes name type addr id d (some off) (some c) q f =
    Leads-if sizes (stored name) addr id (ltb 0 c.ready) einval d
      (allocated sizes name type off c (alloc_pin_struct sizes d))
      (allocated-Leads sizes name type addr id off c (alloc_pin_struct sizes d).0
        (alloc_pin_struct sizes d).1 (shmchk-some addr off q)
        (ap (find_comp_by_id id) (alloc_pin-keeps sizes d.pin_free d refl).1 ∙ f))

-- If `hal_pin_new`, with an address that the process can read, returns 0, the id leads to a component, the name to a pin, and the pointer at the
-- address that was passed to the dummy signal of that pin, counted from where the component has the
-- memory mapped.
pub pin_new-Leads :
    (sizes : Sizes) (name : Name) (type : HalType) (addr : ℤ) (id : ℕ) (d : HalData)
    → Ends sizes (stored name) addr id (hal_pin_new sizes name type (some addr) id (some d))
unfolding hal_pin_new
pin_new-Leads sizes name type addr id d =
    let n = stored name in
    let body = body_of sizes name type addr id in
    Ends-keep sizes n addr id _ (
      Leads-if sizes n addr id (not (pin_type type)) einval d
        (guarded_name sizes name type addr id d)
        (Leads-if sizes n addr id (ltb hal_name_len (length name)) einval d
          (guarded_lock sizes name type addr id d)
          (Leads-if sizes n addr id (is_locked hal_lock_load d) eperm d (locked body d) (
            locked-Leads sizes n addr id body d.mutex d (
              checked-Leads sizes name type addr id (record d { mutex = true }) (shmchk addr)
                (find_comp_by_id id d.comp_list) refl refl)))))
