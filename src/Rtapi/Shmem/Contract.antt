-- ===== src/Rtapi/Shmem/Contract.antt =====
-- rtapi/uspace_common.c: what each call promises about a handle.
use mathlib.Core.Path.{subst}
use real_time_system.Common.{
  ℕ, ◌≤◌, ◌<◌, ◌≡◌, inl, inr, refl, sym, false, none, some, List, leb, ◌==◌, Bool-cases, arith,
  get_elem?, get_elem?-modify_self, get_elem?-lt, modify, modify_undo, einval, Result, ok, err,
  OsResult-cases,
}
use real_time_system.Common.Int.{pos}
use real_time_system.Rtapi.Shmem.{
  Handle, ShmOs, max_shm, Found, mapped, free_slot, full, find_slot, rtapi_shmem_new,
  rtapi_shmem_delete, active, create, attach, release, last_reference, rtapi_shmem_getptr,
  rtapi_shmem_getstate, share, drop_reference, torn_down, shmget_again, open_slot,
}
use real_time_system.Rtapi.Shmem.Walk.{IsLive, Holds, IsFree, Finds, find_slot-Finds}
use real_time_system.Rtapi.Shmem.Table.{IsValid, rtapi_shmem_new-IsValid}

-- The handle `i` is open with the key.
pub record IsOpen (array : List Handle) (i key : ℕ) : Type 0 where
  pub slot : Handle
  pub here : get_elem? array i ≡ some slot
  pub keyed : slot.key ≡ key
  pub counted : 1 ≤ slot.count
  pub pointer : rtapi_shmem_getptr array (pos i) ≡ ok slot.mem
  pub in_state : rtapi_shmem_getstate array (pos i) ≡ active

live-IsOpen :
    (array : List Handle) (i key : ℕ) (h : Handle)
    → IsValid array
    → get_elem? array i ≡ some h
    → IsLive h
    → h.key ≡ key
    → IsOpen array i key
unfolding rtapi_shmem_getptr rtapi_shmem_getstate
live-IsOpen array i key h v here live same = record {
  slot = h;
  here = here;
  keyed = same;
  counted = v.counted i h here live;
  pointer = ground (arith, get_elem?-lt array i here, v.size, v.usable i h here live);
  in_state = ground (arith, get_elem?-lt array i here, v.size, v.usable i h here live);
}

-- What a successful call has opened.
abbrev Opened : ℕ → Result ℕ × List Handle → Type 0
Opened key (ok n, array) = IsOpen array n key
Opened key (err e, array) = Unit

Opened-ok : (key n : ℕ) (r : Result ℕ × List Handle) → Opened key r → r.0 ≡ ok n → IsOpen r.1 n key
Opened-ok key n (ok m, array) o e =
    let same : m ≡ n = ground arith in subst (λ (k : ℕ). IsOpen array k key) same o
Opened-ok key n (err c, array) o e = cc

module _ (sys : ShmOs) (key size : ℕ) (array : List Handle) where
  create-Opened :
      (i : ℕ)
      → IsFree i array
      → IsValid (create sys i key size array).1
      → Opened key (create sys i key size array)
  unfolding create attach
  create-Opened i (h, here, dead) = elim (OsResult-cases (shmget_again sys 5)) [
    | inl (c, bad) ↦ rw (bad, create) (λ v. tt)
    | inr (id, good) ↦
        rw (good, create)
          (elim (OsResult-cases (sys.shmat id)) [
            | inl (c, bad) ↦ rw (bad, attach) (λ v. tt)
            | inr (mem, fine) ↦
                rw (fine, attach)
                  (λ v. live-IsOpen _ i key _ v (get_elem?-modify_self array i _ here) refl refl)
          ])
  ]

  open_slot-Opened :
      (f : Found)
      → Finds key 0 none array f
      → IsValid (open_slot sys key size array f).1
      → Opened key (open_slot sys key size array f)
  unfolding open_slot
  open_slot-Opened (mapped i) (j, e, (h, here, live, same)) v =
      live-IsOpen _ i key _ v
        (get_elem?-modify_self array i share
          (subst (λ (k : ℕ). get_elem? array k ≡ some h) (sym (omega arith)) here))
        live same
  open_slot-Opened (free_slot i) (r, inl e) v = cc
  open_slot-Opened (free_slot i) (r, inr (j, e, g)) v =
      create-Opened i (subst (λ (k : ℕ). IsFree k array) (sym (omega arith)) g) v
  open_slot-Opened full r v = tt

  new-Opened :
      IsValid (rtapi_shmem_new sys key size array).1
      → Opened key (rtapi_shmem_new sys key size array)
  unfolding rtapi_shmem_new
  new-Opened = elim (Bool-cases (key == 0)) [
    | inl e ↦ rw (e, rtapi_shmem_new) (λ v. tt)
    | inr ne ↦ elim (Bool-cases (size == 0)) [
      | inl e ↦ rw (ne, e, rtapi_shmem_new) (λ v. tt)
      | inr nz ↦
          rw (ne, nz, rtapi_shmem_new)
            (open_slot-Opened (find_slot key 0 none array) (find_slot-Finds key 0 none array))
    ]
  ]

  -- On a valid table, a handle that `rtapi_shmem_new` returns is open with the key that was asked
  -- for: its slot is in use with a count of at least 1, `rtapi_shmem_getptr` returns the slot's
  -- address, and `rtapi_shmem_getstate` returns ACTIVE.
  pub new-IsOpen :
      (n : ℕ)
      → IsValid array
      → (rtapi_shmem_new sys key size array).0 ≡ ok n
      → IsOpen (rtapi_shmem_new sys key size array).1 n key
  new-IsOpen n v e =
      Opened-ok key n (rtapi_shmem_new sys key size array)
        (new-Opened (rtapi_shmem_new-IsValid sys key size v)) e

find_slot_held :
    (key i : ℕ) (array : List Handle) (f : Found)
    → IsValid array
    → Holds key i array
    → Finds key 0 none array f
    → f ≡ mapped i
find_slot_held key i array (mapped k) v (h, here, live, same) (j, e, (h', here', live', same')) =
    ground (arith, v.one_per_key i j h h' here here' live live')
find_slot_held key i array (free_slot k) v (h, here, live, same) (r, d) =
    absurd (r i h here live same)
find_slot_held key i array full v (h, here, live, same) (r, a, d) = absurd (r i h here live same)

pub new_again :
    (sys : ShmOs) (key size i : ℕ) (array : List Handle)
    → IsValid array
    → Holds key i array
    → 0 < size
    → rtapi_shmem_new sys key size array ≡ (ok i, modify array i share)
unfolding rtapi_shmem_new open_slot
new_again sys key size i array v held positive =
    let (h, here, live, same) = held in
    ground (
      arith,
      find_slot_held key i array (find_slot key 0 none array) v held
          (find_slot-Finds key 0 none array),
      v.keyed i h here live,
    )

pub delete_shared :
    (sys : ShmOs) (i : ℕ) (array : List Handle) (h : Handle)
    → i < max_shm
    → get_elem? array i ≡ some h
    → IsLive h
    → 1 < h.count
    → rtapi_shmem_delete sys array (pos i) ≡ (ok 0, modify array i drop_reference)
unfolding rtapi_shmem_delete release
delete_shared sys i array h inside here live many = ground arith

drop-share : (h : Handle) → drop_reference (share h) ≡ h
drop-share h = ground arith

-- On a valid table, opening a key that the process has open already and closing the handle again
-- restores the table exactly, whatever the system answers.
pub delete-new :
    (sys later : ShmOs) (key size i : ℕ) (array : List Handle)
    → IsValid array
    → Holds key i array
    → 0 < size
    → rtapi_shmem_delete later (rtapi_shmem_new sys key size array).1 (pos i) ≡ (ok 0, array)
delete-new sys later key size i array v (h, here, live, same) positive = rw (
  new_again sys key size i array v (h, here, live, same) positive,
  delete_shared later i (modify array i share) (share h)
      (omega (arith, get_elem?-lt array i here, v.size)) (get_elem?-modify_self array i share here)
      live (omega (arith, v.counted i h here live)),
  modify_undo array i share drop_reference drop-share,
)

closed_handle :
    (sys : ShmOs) (i : ℕ) (array : List Handle) (h : Handle)
    → get_elem? array i ≡ some h
    → h.magic ≡ 0
    → (rtapi_shmem_getptr array (pos i) ≡ err einval)
      × (rtapi_shmem_delete sys array (pos i) ≡ (err einval, array))
unfolding rtapi_shmem_delete rtapi_shmem_getptr
closed_handle sys i array h here dead = (ground arith, ground arith)

pub delete_last_slot :
    (sys : ShmOs) (i : ℕ) (array : List Handle) (h : Handle)
    → i < max_shm
    → get_elem? array i ≡ some h
    → IsLive h
    → h.count ≡ 1
    → (rtapi_shmem_delete sys array (pos i)).1
      ≡ modify array i (λ _. (torn_down sys (drop_reference h)).0)
unfolding rtapi_shmem_delete release last_reference
delete_last_slot sys i array h inside here live one =
    let out : leb max_shm i ≡ false = ground arith in
    rw (out, rtapi_shmem_delete) (rw here (ground arith))

-- Closing the last reference of an open handle releases its slot, whatever the system answers: the
-- handle then gives no pointer, and closing it once more returns -EINVAL and changes nothing.
pub delete_last :
    (sys later : ShmOs) (i : ℕ) (array : List Handle) (h : Handle)
    → IsValid array
    → get_elem? array i ≡ some h
    → IsLive h
    → h.count ≡ 1
    → (rtapi_shmem_getptr (rtapi_shmem_delete sys array (pos i)).1 (pos i) ≡ err einval)
      × (rtapi_shmem_delete later (rtapi_shmem_delete sys array (pos i)).1 (pos i)
          ≡ (err einval, (rtapi_shmem_delete sys array (pos i)).1))
delete_last sys later i array h v here live one =
    closed_handle later i _ (torn_down sys (drop_reference h)).0
      (rw
        (delete_last_slot sys i array h (omega (arith, get_elem?-lt array i here, v.size)) here live
          one)
        (get_elem?-modify_self array i _ here))
      refl
