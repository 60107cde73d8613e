-- ===== src/Hal/Stats/Memory.antt =====
-- What `hal_get_stats` says of the memory.
use mathlib.Core.Path.{subst}
use real_time_system.Common.{
  ℕ, ◌-◌, ◌≡◌, refl, Bool, true, false, Option, none, some, ltb, if◌then◌else◌, ok, Outcome, done,
  hang, fault,
}
use real_time_system.Hal.Data.{HalData}
use real_time_system.Hal.Pool.{shmalloc_up}
use real_time_system.Hal.Calls.{unlock}
use real_time_system.Hal.Comps.{hal_malloc}
use real_time_system.Hal.Stats.{Stats, stats_of, hal_get_stats}

-- The mutex is free, and `shmem_avail` is what lies between the ends.
abbrev IsExact : HalData → HalData → Type 0
IsExact d d' =
    (d'.mutex ≡ false) × (d'.shmem_avail ≡ d'.shmem_top - d'.shmem_bot) × (d'.state ≡ d.state)

abbrev Told : HalData → Outcome (Option ℕ × HalData) → Type 0
Told d (done (some p, d')) = IsExact d d'
Told d (done (none, d')) = Unit
Told d hang = Unit
Told d fault = Unit

cut-Told :
    (d : HalData) (b : Bool) (at end : ℕ)
    → let d1 = record d { mutex = true } in
      Told d (
        unlock (
          done (
            if b
            then (none, d1)
            else (some at, record d1 { shmem_bot = end; shmem_avail = d.shmem_top - end }))))
cut-Told d true at end = tt
cut-Told d false at end = (refl, refl, refl)

locked-Told :
    (d : HalData) (b : Bool) (o : Outcome (Option ℕ × HalData))
    → Told d o
    → Told d (if b then hang else o)
locked-Told d true o t = tt
locked-Told d false o t = t

malloc-Told : (size : ℕ) (d : HalData) → Told d (hal_malloc size d)
unfolding hal_malloc shmalloc_up
malloc-Told size d = locked-Told d d.mutex _ (cut-Told d (ltb d.shmem_top _) _ _)

get_stats-free :
    (d : HalData) → d.mutex ≡ false → hal_get_stats false (some d) ≡ done (ok (stats_of d), some d)
unfolding hal_get_stats
get_stats-free d m = rw (m, if◌then◌else◌) refl

-- After a call of `hal_malloc` that returns memory, `hal_get_stats` returns, changes nothing, and gives as
-- the available memory just what lies between the two ends of the allocators.
pub stats-malloc :
    (size p : ℕ) (d d' : HalData)
    → hal_malloc size d ≡ done (some p, d')
    → (s : Stats) × (hal_get_stats false (some d') ≡ done (ok s, some d'))
      × (s.shmem_avail ≡ d'.shmem_top - d'.shmem_bot)
      × (s.state ≡ d.state)
stats-malloc size p d d' e =
    let t : IsExact d d' = subst (Told d) e (malloc-Told size d) in
    (stats_of d', get_stats-free d' t.0, t.1, t.2)
