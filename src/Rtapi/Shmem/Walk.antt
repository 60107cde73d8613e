-- ===== src/Rtapi/Shmem/Walk.antt =====
-- rtapi/uspace_common.c: what the walk over the handle array in `rtapi_shmem_new` finds.
use real_time_system.Common.{
  ℕ, zero, suc, ◌+◌, ◌≡◌, ◌≢◌, ◌⊎◌, inl, inr, refl, Option, none, some, List, [], ◌∷◌, ◌==◌,
  Bool-cases, ==_iff, arith, get_elem?,
}
use real_time_system.Rtapi.Shmem.{
  Handle, shmem_magic, Found, mapped, free_slot, full, find_slot, note_free,
}

-- A slot that carries the magic number is in use.
abbrev pub IsLive : Handle → Type 0
IsLive h = h.magic ≡ shmem_magic

-- No slot in use carries the key; every slot is in use.
abbrev pub NoKey : ℕ → List Handle → Type 0
NoKey key hs = (j : ℕ) (h : Handle) → get_elem? hs j ≡ some h → IsLive h → h.key ≢ key

abbrev pub AllLive : List Handle → Type 0
AllLive hs = (j : ℕ) (h : Handle) → get_elem? hs j ≡ some h → IsLive h

NoKey-cons :
    (key : ℕ) (h : Handle) (hs : List Handle)
    → (IsLive h → h.key ≢ key)
    → NoKey key hs
    → NoKey key (h ∷ hs)
NoKey-cons key h hs p r zero k e live q = p (ground arith) (ground arith)
NoKey-cons key h hs p r (suc j) k e live q = r j k e live q

AllLive-cons : (h : Handle) (hs : List Handle) → IsLive h → AllLive hs → AllLive (h ∷ hs)
AllLive-cons h hs live r zero k e = ground arith
AllLive-cons h hs live r (suc j) k e = r j k e

-- A slot in use with the key, and a slot not in use.
abbrev pub Holds : ℕ → ℕ → List Handle → Type 0
Holds key i hs = (h : Handle) × (get_elem? hs i ≡ some h) × IsLive h × (h.key ≡ key)

abbrev pub IsFree : ℕ → List Handle → Type 0
IsFree i hs = (h : Handle) × (get_elem? hs i ≡ some h) × ¬ IsLive h

-- What the walk finds in the slots from `base` on.
abbrev pub Finds : ℕ → ℕ → Option ℕ → List Handle → Found → Type 0
Finds key base free hs (mapped i) = (j : ℕ) × (i ≡ base + j) × Holds key j hs
Finds key base free hs (free_slot i) =
    NoKey key hs × ((free ≡ some i) ⊎ ((j : ℕ) × (i ≡ base + j) × IsFree j hs))
Finds key base free hs full = NoKey key hs × AllLive hs × (free ≡ none)

Finds-live :
    (key base : ℕ) (free : Option ℕ) (h : Handle) (hs : List Handle)
    → IsLive h
    → h.key ≢ key
    → (f : Found) → Finds key (base + 1) free hs f
    → Finds key base free (h ∷ hs) f
Finds-live key base free h hs live ne (mapped i) (j, e, r) = (suc j, omega arith, r)
Finds-live key base free h hs live ne (free_slot i) (r, inl e) =
    (NoKey-cons key h hs (λ _. ne) r, inl e)
Finds-live key base free h hs live ne (free_slot i) (r, inr (j, e, g)) =
    (NoKey-cons key h hs (λ _. ne) r, inr (suc j, omega arith, g))
Finds-live key base free h hs live ne full (r, a, e) =
    (NoKey-cons key h hs (λ _. ne) r, AllLive-cons h hs live a, e)

Finds-free :
    (key base : ℕ) (free : Option ℕ) (h : Handle) (hs : List Handle)
    → ¬ IsLive h
    → (f : Found) → Finds key (base + 1) (note_free free base) hs f
    → Finds key base free (h ∷ hs) f
Finds-free key base free h hs dead (mapped i) (j, e, r) = (suc j, omega arith, r)
Finds-free key base none h hs dead (free_slot i) (r, inl e) =
    (NoKey-cons key h hs (λ l. absurd (dead l)) r, inr (0, ground arith, (h, refl, dead)))
Finds-free key base (some x) h hs dead (free_slot i) (r, inl e) =
    (NoKey-cons key h hs (λ l. absurd (dead l)) r, inl e)
Finds-free key base free h hs dead (free_slot i) (r, inr (j, e, g)) =
    (NoKey-cons key h hs (λ l. absurd (dead l)) r, inr (suc j, omega arith, g))
Finds-free key base none h hs dead full (r, a, e) = cc
Finds-free key base (some x) h hs dead full (r, a, e) = cc

pub find_slot-Finds :
    (key base : ℕ) (free : Option ℕ) (hs : List Handle)
    → Finds key base free hs (find_slot key base free hs)
unfolding find_slot
find_slot-Finds key base none [] = (λ j h e. cc, λ j h e. cc, refl)
find_slot-Finds key base (some x) [] = (λ j h e. cc, inl refl)
find_slot-Finds key base free (h ∷ hs) = elim (Bool-cases (h.magic == shmem_magic)) [
  | inl live ↦ elim (Bool-cases (h.key == key)) [
    | inl same ↦
        rw (live, same, find_slot)
          (0, omega arith, (h, refl, (==_iff _ _).0 live, (==_iff _ _).0 same))
    | inr other ↦
        rw (live, other, find_slot)
          (Finds-live key base free h hs ((==_iff _ _).0 live) (ground arith)
            (find_slot key (base + 1) free hs) (find_slot-Finds key (base + 1) free hs))
  ]
  | inr dead ↦
      rw (dead, find_slot)
        (Finds-free key base free h hs (ground arith)
          (find_slot key (base + 1) (note_free free base) hs)
          (find_slot-Finds key (base + 1) (note_free free base) hs))
]
