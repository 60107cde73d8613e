-- ===== src/Hal/Functs/Failing.antt =====
-- `hal_export_funct` where the pin of the function cannot be made.
use real_time_system.Common.{
  ℕ, ◌+◌, ◌<◌, ◌≡◌, ◌∙◌, ap, refl, false, some, Option, ◌++◌, length, length-append, arith, ok, err,
  einval, enomem, done,
}
use mathlib.Core.Path.{subst}
use real_time_system.Common.Int.{ℤ, pos}
use real_time_system.Common.Names.{Name}
use real_time_system.Common.Runs.{after}
use real_time_system.Hal.Data.{HalData, HalType, Sizes, Funct, s32, hal_name_len}
use real_time_system.Hal.Sorted.{find_by_name, IsSorted}
use real_time_system.Hal.Registry.{Kept, stored}
use real_time_system.Hal.Pins.{hal_pin_newf}
use real_time_system.Hal.Functs.{
  Export, export_funct, hal_export_funct, dot_time, with_pins, after_export,
}
use real_time_system.Hal.Functs.Order.{name_of, list_of, IsExported, export-Kept}

pin_newf_too_long :
    (sizes : Sizes) (text : Name) (type : HalType) (addr : Option ℤ) (id : ℕ) (h : Option HalData)
    → hal_name_len < length text
    → hal_pin_newf sizes text type addr id h ≡ done (err enomem, h)
unfolding hal_pin_newf
pin_newf_too_long sizes text type addr id h l = ground arith

-- If the part of `hal_export_funct` under the mutex enters a function whose name has more than 42 bytes,
-- with the mutex free and the functions in order before, the call returns -EINVAL and leaves the function
-- in the list under its name, with the code and the argument of the caller.
pub export_too_long :
    (sizes : Sizes) (name : Name) (x : Export) (id : ℕ) (d d' : HalData) (off : ℕ)
    → d.mutex ≡ false
    → IsSorted name_of d.funct_list
    → 42 < length name
    → export_funct sizes name x id (some d) ≡ done (ok off, some d')
    → (hal_export_funct sizes name x id (some d) ≡ done (err einval, some d'))
      × (f : Funct) × (find_by_name name_of (stored name) d'.funct_list ≡ some f)
      × (f.funct ≡ x.funct)
      × (f.arg ≡ x.arg)
unfolding hal_export_funct
export_too_long sizes name x id d d' off m s l e =
    let k =
      subst (Kept name_of list_of (λ _ _. refl) (stored name) (IsExported x) d) e
        (export-Kept sizes name x id d m s) in
    (
      ap (after (after_export sizes name id)) e
          ∙ ap (after (with_pins sizes name id off)) (
              pin_newf_too_long sizes (name ++ dot_time) s32
                (some (pos (off + sizes.funct_runtime_at))) id (some d')
                (omega (arith, length-append name dot_time, l))),
      k.1.1,
      k.1.2,
      k.1.3.1,
      k.1.3.2,
    )
