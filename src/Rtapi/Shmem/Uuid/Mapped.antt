-- ===== src/Rtapi/Shmem/Uuid/Mapped.antt =====
-- When a deletion leaves nothing mapped at an address.
use real_time_system.Common.{
  ℕ, zero, suc, ◌-◌, ◌<◌, ◌≡◌, refl, ap, ◌∙◌, false, some, List, [], ◌∷◌, ◌==◌, ltb, leb, get_elem?,
  modify, Bool-cases, Option-cases, inl, inr, arith,
}
use real_time_system.Common.Int.{ℤ, pos, negsuc}
use real_time_system.Rtapi.Shmem.{
  Handle, ShmOs, max_shm, shmem_magic, torn_down, drop_reference, last_reference, release,
  rtapi_shmem_delete,
}
use real_time_system.Rtapi.Shmem.Walk.{IsLive}
use real_time_system.Rtapi.Shmem.Contract.{delete_last_slot}
use real_time_system.Rtapi.Shmem.Uuid.{is_mapped_at}

-- A slot that is mapped at an address.
abbrev pub IsAt : ℕ → Handle → Type 0
IsAt base h = (h.magic ≡ shmem_magic) × (h.mem ≡ base)

abbrev Unmapped : ℕ → List Handle → Type 0
Unmapped base hs = is_mapped_at base hs ≡ false

modify-Unmapped :
    (base i : ℕ) (hs : List Handle) (f : Handle → Handle)
    → ((h : Handle) → IsAt base (f h) → IsAt base h)
    → Unmapped base hs
    → Unmapped base (modify hs i f)
unfolding is_mapped_at
modify-Unmapped base i [] f k u = u
modify-Unmapped base zero (h ∷ hs) f k u = let w = k h in ground (arith, w, u)
modify-Unmapped base (suc i) (h ∷ hs) f k u =
    ground (arith, u, modify-Unmapped base i hs f k (ground (arith, u)))

all_elsewhere :
    (base : ℕ) (hs : List Handle)
    → ((j : ℕ) (h : Handle) → get_elem? hs j ≡ some h → ¬ IsAt base h)
    → Unmapped base hs
unfolding is_mapped_at
all_elsewhere base [] k = refl
all_elsewhere base (h ∷ hs) k =
    let w = k 0 h refl in ground (arith, w, all_elsewhere base hs (λ j. k (suc j)))

-- The only slot that is mapped there is changed.
pub modify-Unmapped_only :
    (base i : ℕ) (hs : List Handle) (f : Handle → Handle)
    → ((h : Handle) → ¬ IsAt base (f h))
    → ((j : ℕ) (h : Handle) → get_elem? hs j ≡ some h → IsAt base h → j ≡ i)
    → Unmapped base (modify hs i f)
unfolding is_mapped_at
modify-Unmapped_only base i [] f k only = refl
modify-Unmapped_only base zero (h ∷ hs) f k only =
    let w = k h in
    ground
      (arith, w, all_elsewhere base hs (λ j g e a. let z = only (suc j) g e a in omega (arith, z)))
modify-Unmapped_only base (suc i) (h ∷ hs) f k only =
    let w : ¬ IsAt base h = λ a. let z = only 0 h refl a in omega (arith, z) in
    ground (
      arith,
      w,
      modify-Unmapped_only base i hs f k
          (λ j g e a. let z = only (suc j) g e a in omega (arith, z)),
    )

magicless : ¬ (◌≡◌ {A = ℕ} 0 shmem_magic)
magicless e = ground (arith, e)

released-Unmapped :
    (sys : ShmOs) (base n : ℕ) (h : Handle) (hs : List Handle)
    → Unmapped base hs
    → Unmapped base (release sys n h hs).1
unfolding release last_reference
released-Unmapped sys base n h hs u = elim (Bool-cases (ltb 0 (h.count - 1))) [
  | inl b ↦ rw (b, release) (modify-Unmapped base n hs drop_reference (λ g a. a) u)
  | inr b ↦
      rw (b, release)
        (modify-Unmapped base n hs (λ _. (torn_down sys (drop_reference h)).0)
          (λ g a. absurd (magicless a.0)) u)
]

-- `rtapi_shmem_delete` maps nothing.
pub delete-Unmapped :
    (sys : ShmOs) (base : ℕ) (hs : List Handle) (handle : ℤ)
    → is_mapped_at base hs ≡ false
    → is_mapped_at base (rtapi_shmem_delete sys hs handle).1 ≡ false
unfolding rtapi_shmem_delete
delete-Unmapped sys base hs (negsuc n) u = u
delete-Unmapped sys base hs (pos n) u = elim (Bool-cases (leb max_shm n)) [
  | inl b ↦ rw (b, rtapi_shmem_delete) u
  | inr b ↦ elim (Option-cases (get_elem? hs n)) [
    | inl q ↦ rw (b, q, rtapi_shmem_delete) u
    | inr (h, q) ↦ elim (Bool-cases (h.magic == shmem_magic)) [
      | inl k ↦ rw (b, q, k, rtapi_shmem_delete) (released-Unmapped sys base n h hs u)
      | inr k ↦ rw (b, q, k, rtapi_shmem_delete) u
    ]
  ]
]

-- The last reference of the only slot that is mapped at the address.
pub delete_last-Unmapped :
    (sys : ShmOs) (base i : ℕ) (hs : List Handle) (h : Handle)
    → i < max_shm
    → get_elem? hs i ≡ some h
    → IsLive h
    → h.count ≡ 1
    → ((j : ℕ) (g : Handle) → get_elem? hs j ≡ some g → IsAt base g → j ≡ i)
    → is_mapped_at base (rtapi_shmem_delete sys hs (pos i)).1 ≡ false
delete_last-Unmapped sys base i hs h inside here live one only =
    ap (is_mapped_at base) (delete_last_slot sys i hs h inside here live one)
    ∙ modify-Unmapped_only base i hs (λ _. (torn_down sys (drop_reference h)).0)
        (λ g a. magicless a.0) only
