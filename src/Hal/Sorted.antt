-- ===== src/Hal/Sorted.antt =====
-- hal/hal_lib.c: the lists of functions, pins and parameters, kept in order of their names.
mod Tests
use Prim.Native.Nat.{Ordering}
use mathlib.Core.Option
use mathlib.Core.Path.{subst}
use real_time_system.Common.{
  ◌≡◌, ◌≢◌, ◌⊎◌, inl, inr, refl, sym, ◌∙◌, ◌↔◌, Option, none, some, List, [], ◌∷◌, arith,
  Option-cases,
}
use real_time_system.Common.Names.{
  Name, strcmp, strcmp_self, eq_of_strcmp, strcmp-flip, strcmp_trans,
}

Ordering-cases : (o : Ordering) → (o ≡ Ordering.lt) ⊎ ((o ≡ Ordering.eq) ⊎ (o ≡ Ordering.gt))
Ordering-cases Ordering.lt = inl refl
Ordering-cases Ordering.eq = inr (inl refl)
Ordering-cases Ordering.gt = inr (inr refl)

some_eq {ℓ} : {A : Type ℓ} {a b : A} → some a ≡ some b → a ≡ b
some_eq e = cc

none-some {ℓ} : {A : Type ℓ} {a : A} → none ≢ some a
none-some e = cc

map-none {ℓ} : {A B : Type ℓ} (f : A → B) (o : Option A) → Option.map f o ≡ none → o ≡ none
map-none f none e = refl
map-none f (some a) e = cc

module _ {A : Type 0} (name : A → Name) where
  -- The walk that inserts a new structure in front of the first one with a larger name; `none` if
  -- the name is met.
  unfoldable pub insert_sorted : A → List A → Option (List A)
  insert_sorted x [] = some (x ∷ [])
  insert_sorted x (y ∷ ys) = elim (strcmp (name y) (name x)) [
    | Ordering.gt ↦ some (x ∷ y ∷ ys)
    | Ordering.eq ↦ none
    | Ordering.lt ↦ Option.map (λ (zs : List A). y ∷ zs) (insert_sorted x ys)
  ]

  -- `halpr_find_…_by_name`
  unfoldable pub find_by_name : Name → List A → Option A
  find_by_name n [] = none
  find_by_name n (y ∷ ys) = elim (strcmp (name y) n) [
    | Ordering.eq ↦ some y
    | _ ↦ find_by_name n ys
  ]

  -- Every name in the list is larger.
  abbrev pub Above : Name → List A → Type 0
  Above n [] = Unit
  Above n (y ∷ ys) = (strcmp n (name y) ≡ Ordering.lt) × Above n ys

  abbrev pub IsSorted : List A → Type 0
  IsSorted [] = Unit
  IsSorted (y ∷ ys) = Above (name y) ys × IsSorted ys

  -- `zs` is `ys` with `x` put in front of the first structure with a larger name.
  data Inserts (x : A) : List A → List A → Type 0 where
    last : Inserts x [] (x ∷ [])
    front :
        {y : A} {ys : List A}
        → strcmp (name y) (name x) ≡ Ordering.gt
        → Inserts x (y ∷ ys) (x ∷ y ∷ ys)
    behind :
        {y : A} {ys zs : List A}
        → strcmp (name y) (name x) ≡ Ordering.lt
        → Inserts x ys zs
        → Inserts x (y ∷ ys) (y ∷ zs)

  insert_sorted-Inserts : (x : A) (ys zs : List A) → insert_sorted x ys ≡ some zs → Inserts x ys zs
  unfolding insert_sorted
  insert_sorted-Inserts x [] zs e = subst (Inserts x []) (some_eq e) last
  insert_sorted-Inserts x (y ∷ ys) zs e = elim (Ordering-cases (strcmp (name y) (name x))) [
    | inl below ↦ elim (Option-cases (insert_sorted x ys)) [
      | inl dup ↦ absurd (none-some (sym (rw (below, dup, insert_sorted)) ∙ e))
      | inr (rest, r) ↦
          subst (Inserts x (y ∷ ys)) (some_eq (sym (rw (below, r, insert_sorted)) ∙ e))
            (behind below (insert_sorted-Inserts x ys rest r))
    ]
    | inr (inl same) ↦ absurd (none-some (sym (rw (same, insert_sorted)) ∙ e))
    | inr (inr above) ↦
        subst (Inserts x (y ∷ ys)) (some_eq (sym (rw (above, insert_sorted)) ∙ e)) (front above)
  ]

  Above-trans : (m n : Name) (ys : List A) → strcmp m n ≡ Ordering.lt → Above n ys → Above m ys
  Above-trans m n [] h a = tt
  Above-trans m n (y ∷ ys) h a = (strcmp_trans m n (name y) h a.0, Above-trans m n ys h a.1)

  Inserts-Above :
      (n : Name) {x : A} {ys zs : List A}
      → Inserts x ys zs
      → strcmp n (name x) ≡ Ordering.lt
      → Above n ys
      → Above n zs
  Inserts-Above n last h a = (h, tt)
  Inserts-Above n (front g) h a = (h, a)
  Inserts-Above n (behind l r) h a = (a.0, Inserts-Above n r h a.1)

  Inserts-IsSorted : {x : A} {ys zs : List A} → Inserts x ys zs → IsSorted ys → IsSorted zs
  Inserts-IsSorted last s = (tt, tt)
  Inserts-IsSorted (front {y} {ys} g) s =
      let below = strcmp-flip (name y) _ g in ((below, Above-trans _ (name y) ys below s.0), s)
  Inserts-IsSorted (behind {y} l r) s = (Inserts-Above (name y) r l s.0, Inserts-IsSorted r s.1)

  pub insert_sorted-IsSorted :
      (x : A) (ys zs : List A) → insert_sorted x ys ≡ some zs → IsSorted ys → IsSorted zs
  insert_sorted-IsSorted x ys zs e s = Inserts-IsSorted (insert_sorted-Inserts x ys zs e) s

  Inserts-find_new : {x : A} {ys zs : List A} → Inserts x ys zs → find_by_name (name x) zs ≡ some x
  unfolding find_by_name
  Inserts-find_new {x} last = rw (strcmp_self (name x), find_by_name)
  Inserts-find_new {x} (front g) = rw (strcmp_self (name x), find_by_name)
  Inserts-find_new {x} (behind l r) = rw (l, find_by_name) (Inserts-find_new r)

  Inserts-find_old :
      (n : Name) {x : A} {ys zs : List A}
      → Inserts x ys zs
      → n ≢ name x
      → find_by_name n zs ≡ find_by_name n ys
  unfolding find_by_name
  Inserts-find_old n {x} last ne = ground (arith, eq_of_strcmp (name x) n)
  Inserts-find_old n {x} (front g) ne = ground (arith, eq_of_strcmp (name x) n)
  Inserts-find_old n {x} (behind l r) ne = ground (arith, Inserts-find_old n r ne)

  -- After an insertion that is not refused, the new name leads to the new structure, and every other
  -- name to what it led to before.
  pub find-insert_sorted :
      (x : A) (ys zs : List A)
      → insert_sorted x ys ≡ some zs
      → (find_by_name (name x) zs ≡ some x)
        × ((n : Name) → n ≢ name x → find_by_name n zs ≡ find_by_name n ys)
  find-insert_sorted x ys zs e =
      let i = insert_sorted-Inserts x ys zs e in
      (Inserts-find_new i, λ n ne. Inserts-find_old n i ne)

  find-Above : (n : Name) (ys : List A) → Above n ys → find_by_name n ys ≡ none
  unfolding find_by_name
  find-Above n [] a = refl
  find-Above n (y ∷ ys) a =
      ground (arith, find-Above n ys, strcmp_self n, eq_of_strcmp (name y) n, a.0)

  -- On a list in order, the insertion is refused exactly when the name stands in the list: the walk
  -- may stop at the first larger name.
  pub insert_sorted-none_iff :
      (x : A) (ys : List A)
      → IsSorted ys
      → (insert_sorted x ys ≡ none) ↔ (find_by_name (name x) ys ≢ none)
  unfolding insert_sorted find_by_name
  insert_sorted-none_iff x [] s = (λ e. cc, λ h. absurd (h refl))
  insert_sorted-none_iff x (y ∷ ys) s = elim (Ordering-cases (strcmp (name y) (name x))) [
    | inl below ↦
        let ih = insert_sorted-none_iff x ys s.1 in
        rw (below, insert_sorted, find_by_name)
          ((λ e. ih.0 (map-none _ (insert_sorted x ys) e)), λ h. rw (ih.1 h))
    | inr (inl same) ↦ rw (same, insert_sorted, find_by_name) ((λ e q. cc), λ h. refl)
    | inr (inr above) ↦
        let below = strcmp-flip (name y) (name x) above in
        rw (above, insert_sorted, find_by_name)
          (
            (λ e. cc),
            λ h. absurd (h (find-Above (name x) ys (Above-trans _ (name y) ys below s.0))),
          )
  ]
