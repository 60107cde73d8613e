-- ===== src/Rtapi/Shmem/Uuid/Ids.antt =====
-- The ids that `rtapi_init` hands out.
use real_time_system.Common.{
  ℕ, zero, suc, ◌+◌, ◌<◌, ◌≡◌, ◌≢◌, refl, sym, ap, ◌∙◌, Bool, true, false, List, [], ◌∷◌,
  if◌then◌else◌, get_elem?, get_elem?-lt, get_elem?-modify_self, modify, some, Result, ok, Outcome,
  done, arith,
}
use real_time_system.Common.Int.{ℤ, pos}
use real_time_system.Common.Runs.{Run, pure, ◌>>=◌, after}
use mathlib.Core.Path.{subst}
use real_time_system.Rtapi.Shmem.{
  Handle, ShmOs, max_shm, active, share, rtapi_shmem_getptr, rtapi_shmem_delete,
}
use real_time_system.Rtapi.Shmem.Walk.{IsLive, Holds}
use real_time_system.Rtapi.Shmem.Table.{IsValid, rtapi_shmem_new-IsValid}
use real_time_system.Rtapi.Shmem.Contract.{new_again, delete-new}
use real_time_system.Rtapi.Shmem.Uuid.{
  uuid_key, uuid_size, Modules, Found, is_mapped_at, rtapi_init, rtapi_exit, after_getptr,
  after_new, is_first, with_base, counted,
}

-- The segment is open at slot `i`, mapped at the base that the calls use, and its mutex is free.
pub record IsUp (i : ℕ) (m : Modules) : Type 0 where
  pub slot : Handle
  pub valid : IsValid m.handles
  pub here : get_elem? m.handles i ≡ some slot
  pub live : IsLive slot
  pub keyed : slot.key ≡ uuid_key
  pub based : slot.mem ≡ m.uuid_base
  pub mapped : m.uuid_base ≢ 0
  pub free : m.uuid_mutex ≡ false
  pub known : m.uuid_mem_id ≡ pos i

mapped_here :
    (base i : ℕ) (hs : List Handle) (h : Handle)
    → get_elem? hs i ≡ some h
    → IsLive h
    → h.mem ≡ base
    → is_mapped_at base hs ≡ true
unfolding is_mapped_at
mapped_here base i [] h e live b = cc
mapped_here base zero (x ∷ hs) h e live b = ground arith
mapped_here base (suc i) (x ∷ hs) h e live b = ground (arith, mapped_here base i hs h e live b)

getptr_live :
    (i : ℕ) (hs : List Handle) (h : Handle)
    → i < max_shm
    → get_elem? hs i ≡ some h
    → IsLive h
    → h.state ≡ active
    → rtapi_shmem_getptr hs (pos i) ≡ ok h.mem
unfolding rtapi_shmem_getptr
getptr_live i hs h inside e live a = ground arith

-- The state after one more call.
abbrev pub next : ℕ → Modules → Modules
next i m = record m { handles = modify m.handles i share; uuid = m.uuid + 1; uuid_mem_id = pos i }

counted_lem :
    (m : Modules)
    → is_mapped_at m.uuid_base m.handles ≡ true
    → m.uuid_mutex ≡ false
    → counted m ≡ done (ok (m.uuid + 1), record m { uuid = m.uuid + 1 })
counted_lem m a b = rw (a, if◌then◌else◌) (rw (b, if◌then◌else◌))

with_base_lem :
    (f : Found) (first : Bool) (mem : ℕ) (m : Modules)
    → m.uuid_base ≢ 0
    → first ≡ false
    → with_base f first mem m ≡ m
with_base_lem f first mem m nz e = ground arith

init_up :
    (sys : ShmOs) (f : Found) (i : ℕ) (m : Modules)
    → IsUp i m
    → rtapi_init sys f m ≡ done (ok (m.uuid + 1), next i m)
unfolding rtapi_init
init_up sys f i m u =
    let hs = modify m.handles i share in
    let m1 = record m { handles = hs; uuid_mem_id = pos i } in
    let here1 : get_elem? hs i ≡ some (share u.slot) =
      get_elem?-modify_self m.handles i share u.here in
    let inside : i < max_shm = omega (arith, get_elem?-lt m.handles i u.here, u.valid.size) in
    let many : is_first (some (share u.slot)) ≡ false =
      ground (arith, u.valid.counted i u.slot u.here u.live) in
    ap (after_new sys f m) (
      new_again sys uuid_key uuid_size i m.handles u.valid (u.slot, u.here, u.live, u.keyed)
        (omega arith))
    ∙ ap (after_getptr sys f (is_first (get_elem? hs i)) m1) (
        getptr_live i hs (share u.slot) inside here1 u.live (u.valid.usable i u.slot u.here u.live))
    ∙ ap counted (
        with_base_lem f (is_first (get_elem? hs i)) u.slot.mem m1 u.mapped
          (ap is_first here1 ∙ many))
    ∙ counted_lem m1 (mapped_here m.uuid_base i hs (share u.slot) here1 u.live u.based) u.free

next-IsUp : (sys : ShmOs) (i : ℕ) (m : Modules) → IsUp i m → IsUp i (next i m)
next-IsUp sys i m u = record {
  slot = share u.slot;
  valid =
      subst IsValid
        (ap (λ r. r.1)
          (new_again sys uuid_key uuid_size i m.handles u.valid (u.slot, u.here, u.live, u.keyed)
            (omega arith)))
        (rtapi_shmem_new-IsValid sys uuid_key uuid_size u.valid);
  here = get_elem?-modify_self m.handles i share u.here;
  live = u.live;
  keyed = u.keyed;
  based = u.based;
  mapped = u.mapped;
  free = u.free;
  known = refl;
}

-- Calls of `rtapi_init` in a row, each with what the system answers and what it finds.
pub inits : List (ShmOs × Found) → Run Modules (List (Result ℕ))
inits [] = pure []
inits (c ∷ cs) = do r ← rtapi_init c.0 c.1; rs ← inits cs; pure (r ∷ rs)

-- The numbers after `n`, one for each call.
pub ids_after : ℕ → List (ShmOs × Found) → List (Result ℕ)
ids_after n [] = []
ids_after n (c ∷ cs) = ok (n + 1) ∷ ids_after (n + 1) cs

pub ids_of : Outcome (List (Result ℕ) × Modules) → List (Result ℕ)
ids_of (done (rs, m)) = rs
ids_of _ = []

-- Once the segment of the counter is open, mapped and free, any number of calls of `rtapi_init` all
-- return, and their ids are the numbers that follow the counter, in order, so that no two are equal.
pub inits-count :
    (cs : List (ShmOs × Found)) (i : ℕ) (m : Modules)
    → IsUp i m
    → (m' : Modules) × (inits cs m ≡ done (ids_after m.uuid cs, m')) × IsUp i m'
unfolding inits ids_after
inits-count [] i m u = (m, refl, u)
inits-count (c ∷ cs) i m u =
    let rest = inits-count cs i (next i m) (next-IsUp c.0 i m u) in
    (
      rest.0,
      ap (after (λ r. inits cs >>= λ rs. pure (r ∷ rs))) (init_up c.0 c.1 i m u)
          ∙ ap (after (λ rs. pure (ok (m.uuid + 1) ∷ rs))) rest.1,
      rest.2,
    )

closed_again :
    (sys later : ShmOs) (i : ℕ) (m : Modules)
    → IsUp i m
    → (rtapi_shmem_delete later (modify m.handles i share) (pos i)).1 ≡ m.handles
closed_again sys later i m u =
    let held : Holds uuid_key i m.handles = (u.slot, u.here, u.live, u.keyed) in
    ap (λ r. (rtapi_shmem_delete later r.1 (pos i)).1)
      (sym (new_again sys uuid_key uuid_size i m.handles u.valid held (omega arith)))
    ∙ ap (λ r. r.1) (delete-new sys later uuid_key uuid_size i m.handles u.valid held (omega arith))

-- While the segment is open, mapped and free, `rtapi_init` and then `rtapi_exit` restore the table of
-- handles exactly, whatever the system answers, and the next id is one more than the one that was used.
pub exit-init_up :
    (sys later : ShmOs) (f : Found) (i : ℕ) (m : Modules) (id : ℤ)
    → IsUp i m
    → (m' : Modules) × (rtapi_init sys f m ≡ done (ok (m.uuid + 1), m'))
      × ((rtapi_exit later id m').1 ≡ record m { uuid = m.uuid + 1 })
unfolding rtapi_exit
exit-init_up sys later f i m id u = (
  next i m,
  init_up sys f i m u,
  ap (λ hs. record m { handles = hs; uuid_mem_id = pos i; uuid = m.uuid + 1 })
        (closed_again sys later i m u)
      ∙ ap (λ id. record m { uuid_mem_id = id; uuid = m.uuid + 1 }) (sym u.known),
)
