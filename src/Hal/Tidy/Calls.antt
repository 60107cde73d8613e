-- ===== src/Hal/Tidy/Calls.antt =====
-- Any row of the calls that register pins, parameters and functions.
use real_time_system.Common.{
  ℕ, ◌+◌, ◌≡◌, true, false, Option, none, some, List, [], ◌∷◌, ◌++◌, ltb, length, if◌then◌else◌,
  Bool, Result, ok, err, Outcome, done, hang, fault, enomem, arith,
}
use real_time_system.Common.Int.{ℤ, pos}
use real_time_system.Common.Names.{Name, snprintf}
use real_time_system.Common.Runs.{Run, pure, after, ◌>>=◌}
use real_time_system.Hal.Data.{
  HalData, HalType, ParamDir, Sizes, Funct, s32, bit, rw, ro, hal_name_len,
}
use real_time_system.Hal.Params.{hal_param_new}
use real_time_system.Hal.Pins.{hal_pin_new, hal_pin_newf}
use real_time_system.Hal.Functs.{
  Export, export_funct, hal_export_funct, dot_time, at_offset, assign, zero_runtime, with_pins,
  after_export,
}
use real_time_system.Hal.Tidy.{IsFree, Frees, IsSorted-map}
use real_time_system.Hal.Tidy.Registering.{param_new-Frees, pin_new-Frees, export-Frees}

pub after-Frees :
    {A B : Type 0} (f : A → Run (Option HalData) B) (o : Outcome (A × Option HalData))
    → Frees o
    → ((a : A) (h : Option HalData) → IsFree h → Frees (f a h))
    → Frees (after f o)
after-Frees f (done (a, h)) t k = k a h t
after-Frees f hang t k = t
after-Frees f fault t k = t

Frees-if :
    {A : Type 0} (c : Bool) (o p : Outcome (A × Option HalData))
    → Frees o
    → Frees p
    → Frees (if c then o else p)
Frees-if true o p t u = t
Frees-if false o p t u = u

pub pin_newf-Frees :
    (sizes : Sizes) (text : Name) (type : HalType) (addr : ℤ) (id : ℕ) (h : Option HalData)
    → IsFree h
    → Frees (hal_pin_newf sizes text type (some addr) id h)
unfolding hal_pin_newf
pin_newf-Frees sizes text type addr id h t =
    Frees-if (ltb hal_name_len (length text)) (done (err enomem, h))
      (hal_pin_new sizes (snprintf (hal_name_len + 1) text) type (some addr) id h) t
      (pin_new-Frees sizes (snprintf (hal_name_len + 1) text) type addr id h t)

-- An assignment to a field that is not the name.
assign-Frees :
    (off : ℕ) (g : Funct → Funct) (h : Option HalData)
    → ((f : Funct) → (at_offset off g f).name ≡ f.name)
    → IsFree h
    → Frees (assign off g h)
assign-Frees off g none k t = t
assign-Frees off g (some d) k (m, t) =
    (m, (IsSorted-map (λ (f : Funct). f.name) (at_offset off g) k d.funct_list t.0, t.1, t.2))

with_pins-Frees :
    (sizes : Sizes) (name : Name) (id off : ℕ) (r : Result ℕ) (h : Option HalData)
    → IsFree h
    → Frees (with_pins sizes name id off r h)
with_pins-Frees sizes name id off (err e) h t = t
with_pins-Frees sizes name id off (ok r) h t =
    after-Frees _ (assign off zero_runtime h)
      (assign-Frees off zero_runtime h (λ f. ground arith) t)
      λ _ h1 t1.
        after-Frees _ (assign off _ h1) (assign-Frees off _ h1 (λ f. ground arith) t1) λ _ h2 t2.
          after-Frees _ (hal_param_new sizes _ s32 rw _ id h2)
            (param_new-Frees sizes _ s32 rw _ id h2 t2)
            λ _ h3 t3.
              after-Frees _ (assign off _ h3) (assign-Frees off _ h3 (λ f. ground arith) t3)
                λ _ h4 t4.
                  after-Frees _ (hal_param_new sizes _ bit ro _ id h4)
                    (param_new-Frees sizes _ bit ro _ id h4 t4) λ _ h5 t5. t5

after_export-Frees :
    (sizes : Sizes) (name : Name) (id : ℕ) (r : Result ℕ) (h : Option HalData)
    → IsFree h
    → Frees (after_export sizes name id r h)
after_export-Frees sizes name id (err e) h t = t
after_export-Frees sizes name id (ok off) h t =
    after-Frees _
      (hal_pin_newf sizes (name ++ dot_time) s32 (some (pos (off + sizes.funct_runtime_at))) id h)
      (pin_newf-Frees sizes (name ++ dot_time) s32 _ id h t) (with_pins-Frees sizes name id off)

pub export_funct-Frees :
    (sizes : Sizes) (name : Name) (x : Export) (id : ℕ) (h : Option HalData)
    → IsFree h
    → Frees (hal_export_funct sizes name x id h)
unfolding hal_export_funct
export_funct-Frees sizes name x id h t =
    after-Frees (after_export sizes name id) (export_funct sizes name x id h)
      (export-Frees sizes name x id h t) (after_export-Frees sizes name id)

-- The pointers of pins stand at addresses that the process can read.
pub data Call : Type 0 where
  param_new : Name → HalType → ParamDir → ℤ → ℕ → Call
  pin_newf : Name → HalType → ℤ → ℕ → Call
  export : Name → Export → ℕ → Call

pub call : Sizes → Call → Run (Option HalData) (Result ℕ)
call sizes (param_new name type dir addr id) = hal_param_new sizes name type dir addr id
call sizes (pin_newf text type addr id) = hal_pin_newf sizes text type (some addr) id
call sizes (export name x id) = hal_export_funct sizes name x id

pub calls : Sizes → List Call → Run (Option HalData) (List (Result ℕ))
unfolding call
calls sizes [] = pure []
calls sizes (c ∷ cs) = do r ← call sizes c; rs ← calls sizes cs; pure (r ∷ rs)
