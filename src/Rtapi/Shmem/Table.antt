-- ===== src/Rtapi/Shmem/Table.antt =====
-- rtapi/uspace_common.c: what holds of the handle array between calls.
use mathlib.Core.Path.{subst}
use real_time_system.Common.{
  ℕ, zero, suc, ◌-◌, ◌≤◌, ◌≡◌, ◌≢◌, inl, inr, refl, sym, ap, ◌∙◌, none, some, List, [], ◌∷◌, ltb,
  leb, ◌==◌, Bool-cases, ==_iff, Option-cases, arith, length, length-modify, get_elem?,
  get_elem?-modify, modify, replicate, OsResult-cases,
}
use real_time_system.Common.Int.{ℤ, pos, negsuc}
use real_time_system.Rtapi.Shmem.{
  Handle, ShmOs, max_shm, shmem_magic, Found, mapped, free_slot, full, find_slot, rtapi_shmem_new,
  rtapi_shmem_delete, no_segments, blank, share, drop_reference, open_slot, shmget_again, active,
  create, attach, release, last_reference,
}
use real_time_system.Rtapi.Shmem.Walk.{IsLive, NoKey, Holds, IsFree, Finds, find_slot-Finds}

pub record IsValid (array : List Handle) : Type 0 where
  pub size : length array ≡ max_shm
  pub counted : (i : ℕ) (h : Handle) → get_elem? array i ≡ some h → IsLive h → 1 ≤ h.count
  pub usable : (i : ℕ) (h : Handle) → get_elem? array i ≡ some h → IsLive h → h.state ≡ active
  pub keyed : (i : ℕ) (h : Handle) → get_elem? array i ≡ some h → IsLive h → h.key ≢ 0
  pub one_per_key :
      (i j : ℕ) (h k : Handle)
      → get_elem? array i ≡ some h
      → get_elem? array j ≡ some k
      → IsLive h
      → IsLive k
      → h.key ≡ k.key
      → i ≡ j

blank_slots : (n i : ℕ) (h : Handle) → get_elem? (replicate n blank) i ≡ some h → ¬ IsLive h
blank_slots zero i h e live = cc
blank_slots (suc n) zero h e live = ground arith
blank_slots (suc n) (suc i) h e live = blank_slots n i h e live

zero-not-magic : ¬ (◌≡◌ {A = ℕ} 0 shmem_magic)
zero-not-magic h = omega arith

-- What a new value of a slot has to satisfy.
record Fits (array : List Handle) (i : ℕ) (h : Handle) : Type 0 where
  counted : 1 ≤ h.count
  usable : h.state ≡ active
  keyed : h.key ≢ 0
  fresh : (j : ℕ) (k : Handle) → j ≢ i → get_elem? array j ≡ some k → IsLive k → k.key ≢ h.key

module _ {array : List Handle} (v : IsValid array) (i : ℕ) (f : Handle → Handle) {h : Handle}
    (here : get_elem? array i ≡ some h) (fits : IsLive (f h) → Fits array i (f h)) where
  modify-IsValid : IsValid (modify array i f)
  modify-IsValid = record {
    size = length-modify array i f ∙ v.size;
    counted = λ j k e live. elim (get_elem?-modify array i j f here e) [
      | inl (_, q) ↦ rw q (fits (rw q at live)).counted
      | inr (_, q) ↦ v.counted j k q live
    ];
    usable = λ j k e live. elim (get_elem?-modify array i j f here e) [
      | inl (_, q) ↦ rw q (fits (rw q at live)).usable
      | inr (_, q) ↦ v.usable j k q live
    ];
    keyed = λ j k e live. elim (get_elem?-modify array i j f here e) [
      | inl (_, q) ↦ rw q (fits (rw q at live)).keyed
      | inr (_, q) ↦ v.keyed j k q live
    ];
    one_per_key = λ a b k l ea eb la lb same. elim (get_elem?-modify array i a f here ea) [
      | inl (pa, qa) ↦ elim (get_elem?-modify array i b f here eb) [
        | inl (pb, qb) ↦ pa ∙ sym pb
        | inr (pb, qb) ↦ absurd (
            (fits (rw qa at la)).fresh b l pb qb lb
              (sym (sym (ap (λ (t : Handle). t.key) qa) ∙ same)))
      ]
      | inr (pa, qa) ↦ elim (get_elem?-modify array i b f here eb) [
        | inl (pb, qb) ↦
            absurd ((fits (rw qb at lb)).fresh a k pa qa la (same ∙ ap (λ (t : Handle). t.key) qb))
        | inr (pb, qb) ↦ v.one_per_key a b k l qa qb la lb same
      ]
    ];
  }

blank_table-IsValid : IsValid no_segments
blank_table-IsValid = record {
  size = refl;
  counted = λ i h e live. absurd (blank_slots max_shm i h e live);
  usable = λ i h e live. absurd (blank_slots max_shm i h e live);
  keyed = λ i h e live. absurd (blank_slots max_shm i h e live);
  one_per_key = λ i j h k e d live. absurd (blank_slots max_shm i h e live);
}

module _ (sys : ShmOs) (key size : ℕ) {array : List Handle} (v : IsValid array)
    (nonzero : key ≢ 0) where
  share-IsValid : (i : ℕ) → Holds key i array → IsValid (modify array i share)
  share-IsValid i (h, here, live, same) = modify-IsValid v i share here λ _. record {
    counted = omega arith;
    usable = v.usable i h here live;
    keyed = v.keyed i h here live;
    fresh = λ j k ne e l q. ne (v.one_per_key j i k h e here l live q);
  }

  create-IsValid :
      (i : ℕ) → IsFree i array → NoKey key array → IsValid (create sys i key size array).1
  unfolding create attach
  create-IsValid i (h, here, dead) none_has = elim (OsResult-cases (shmget_again sys 5)) [
    | inl (e, bad) ↦ rw (bad, create) (modify-IsValid v i _ here λ l. absurd (dead l))
    | inr (id, good) ↦
        rw (good, create)
          (elim (OsResult-cases (sys.shmat id)) [
            | inl (e, bad) ↦ rw (bad, attach) (modify-IsValid v i _ here λ l. absurd (dead l))
            | inr (mem, ok') ↦
                rw (ok', attach)
                  (modify-IsValid v i _ here λ _. record {
                    counted = omega arith;
                    usable = refl;
                    keyed = nonzero;
                    fresh = λ j k ne e l. none_has j k e l;
                  })
          ])
  ]

  open_slot-IsValid :
      (f : Found) → Finds key 0 none array f → IsValid (open_slot sys key size array f).1
  unfolding open_slot
  open_slot-IsValid (mapped i) (j, e, r) =
      share-IsValid i (subst (λ (k : ℕ). Holds key k array) (sym (omega arith)) r)
  open_slot-IsValid (free_slot i) (r, inl e) = cc
  open_slot-IsValid (free_slot i) (r, inr (j, e, g)) =
      create-IsValid i (subst (λ (k : ℕ). IsFree k array) (sym (omega arith)) g) r
  open_slot-IsValid full r = v

-- A call that opens a segment keeps the table valid, whatever the system answers.
pub rtapi_shmem_new-IsValid :
    (sys : ShmOs) (key size : ℕ) {array : List Handle}
    → IsValid array
    → IsValid (rtapi_shmem_new sys key size array).1
unfolding rtapi_shmem_new
rtapi_shmem_new-IsValid sys key size {array} v = elim (Bool-cases (key == 0)) [
  | inl e ↦ rw (e, rtapi_shmem_new) v
  | inr ne ↦ elim (Bool-cases (size == 0)) [
    | inl e ↦ rw (ne, e, rtapi_shmem_new) v
    | inr nz ↦
        rw (ne, nz, rtapi_shmem_new)
          (open_slot-IsValid sys key size v (ground arith) (find_slot key 0 none array)
            (find_slot-Finds key 0 none array))
  ]
]

release-IsValid :
    (sys : ShmOs) (n : ℕ) (h : Handle) {array : List Handle}
    → IsValid array
    → get_elem? array n ≡ some h
    → IsLive h
    → IsValid (release sys n h array).1
unfolding release last_reference
release-IsValid sys n h {array} v here live = elim (Bool-cases (ltb 0 (h.count - 1))) [
  | inl more ↦
      rw (more, release)
        (modify-IsValid v n drop_reference here λ _. record {
          counted = ground arith;
          usable = v.usable n h here live;
          keyed = v.keyed n h here live;
          fresh = λ j k ne e l q. ne (v.one_per_key j n k h e here l live q);
        })
  | inr last ↦ rw (last, release) (modify-IsValid v n _ here λ l. absurd (zero-not-magic l))
]

pub rtapi_shmem_delete-IsValid :
    (sys : ShmOs) (handle : ℤ) {array : List Handle}
    → IsValid array
    → IsValid (rtapi_shmem_delete sys array handle).1
unfolding rtapi_shmem_delete
rtapi_shmem_delete-IsValid sys (negsuc n) v = v
rtapi_shmem_delete-IsValid sys (pos n) {array} v = elim (Bool-cases (leb max_shm n)) [
  | inl out ↦ rw (out, rtapi_shmem_delete) v
  | inr inside ↦
      rw (inside, rtapi_shmem_delete)
        (elim (Option-cases (get_elem? array n)) [
          | inl e ↦ rw e v
          | inr (h, here) ↦ rw here (elim (Bool-cases (h.magic == shmem_magic)) [
            | inl live ↦ rw live (release-IsValid sys n h v here ((==_iff _ _).0 live))
            | inr dead ↦ rw dead v
          ])
        ])
]

-- The two calls that change the table.
pub data Call : Type 0 where
  opens : ShmOs → (key size : ℕ) → Call
  deletes : ShmOs → ℤ → Call

unfoldable pub step : List Handle → Call → List Handle
step array (opens sys key size) = (rtapi_shmem_new sys key size array).1
step array (deletes sys handle) = (rtapi_shmem_delete sys array handle).1

unfoldable pub run : List Handle → List Call → List Handle
run array [] = array
run array (c ∷ cs) = run (step array c) cs

step-IsValid : (array : List Handle) (c : Call) → IsValid array → IsValid (step array c)
unfolding step
step-IsValid array (opens sys key size) v = rtapi_shmem_new-IsValid sys key size v
step-IsValid array (deletes sys handle) v = rtapi_shmem_delete-IsValid sys handle v

run_from-IsValid : (array : List Handle) (cs : List Call) → IsValid array → IsValid (run array cs)
unfolding run
run_from-IsValid array [] v = v
run_from-IsValid array (c ∷ cs) v = run_from-IsValid (step array c) cs (step-IsValid array c v)

-- After any calls from zeroed storage, with any answers of the system, the table has 64 slots, a
-- slot in use has a count of at least 1, a non-zero key and the state ACTIVE, and no two slots in
-- use have the same key.
pub run-IsValid : (cs : List Call) → IsValid (run no_segments cs)
run-IsValid cs = run_from-IsValid no_segments cs blank_table-IsValid
