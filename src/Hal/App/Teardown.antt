-- ===== src/Hal/App/Teardown.antt =====
-- How `hal_app_exit` ends.
use real_time_system.Common.{
  ℕ, ◌<◌, ◌≡◌, refl, ap, ◌∙◌, true, false, some, List, [], get_elem?, if◌then◌else◌, Outcome, done,
  hang, fault,
}
use real_time_system.Common.Int.{ℤ, pos}
use real_time_system.Rtapi.Task.{Slot}
use real_time_system.Rtapi.Shmem.{Handle, max_shm}
use real_time_system.Rtapi.Shmem.Walk.{IsLive}
use real_time_system.Rtapi.Shmem.Uuid.Mapped.{IsAt, delete-Unmapped, delete_last-Unmapped}
use real_time_system.Rtapi.Shmem.Uuid.{is_mapped_at, rtapi_exit}
use real_time_system.Hal.Data.{HalData, shutting_down}
use real_time_system.Hal.Comps.{is_destroyed}
use real_time_system.Rtapi.Shmem.{rtapi_shmem_delete}
use real_time_system.Rtapi.Task.Started.{AllStarted}
use real_time_system.Hal.Mounting.Users.{IsCounted}
use real_time_system.Hal.Threads.Counts.{Counted, free_threads-Counted}
use real_time_system.Hal.App.{
  Process, Boot, exited, released, marked, torn_down, given_back, tear_down, hal_app_exit,
}

-- The memory of the HAL is open at a slot with one reference, and at no other slot.
pub record IsSole (p : Process) : Type 0 where
  pub slot : ℕ
  pub handle : Handle
  pub known : p.lib_mem_id ≡ pos slot
  pub inside : slot < max_shm
  pub here : get_elem? p.modules.handles slot ≡ some handle
  pub live : IsLive handle
  pub once : handle.count ≡ 1
  pub only :
      (j : ℕ) (g : Handle)
      → get_elem? p.modules.handles j ≡ some g
      → IsAt p.hal_shmem_base g
      → j ≡ slot

exited-unmapped :
    (boot : Boot) (id : ℤ) (p : Process)
    → is_mapped_at p.hal_shmem_base p.modules.handles ≡ false
    → is_mapped_at p.hal_shmem_base (exited boot id p).modules.handles ≡ false
unfolding rtapi_exit
exited-unmapped boot id p u =
    delete-Unmapped boot.exit_os p.hal_shmem_base p.modules.handles p.modules.uuid_mem_id u

released-unmapped :
    (boot : Boot) (p : Process)
    → IsSole p
    → is_mapped_at p.hal_shmem_base (released boot p).modules.handles ≡ false
released-unmapped boot p s =
    ap
      (λ id. is_mapped_at p.hal_shmem_base (rtapi_shmem_delete boot.exit_os p.modules.handles id).1)
      s.known
    ∙ delete_last-Unmapped boot.exit_os p.hal_shmem_base s.slot p.modules.handles s.handle s.inside
        s.here s.live s.once s.only

marked-fault :
    (p : Process) (d : HalData)
    → is_mapped_at p.hal_shmem_base p.modules.handles ≡ false
    → marked p d ≡ fault
marked-fault p d u = rw (u, if◌then◌else◌) refl

-- The call has deleted every thread and given its memory back, which is not mapped any more.
abbrev pub TornDown : ℕ → Outcome (HalData × Process) → Type 0
TornDown base o =
    (d : HalData) × (q : Process) × (o ≡ done (d, q))
    × (d.thread_list ≡ [])
    × IsCounted d
    × (d.mutex ≡ false)
    × (q.hal_shmem_base ≡ base)
    × (is_mapped_at q.hal_shmem_base q.modules.handles ≡ false)

given_back-TornDown :
    (boot : Boot) (p : Process) (o : Outcome (HalData × List Slot))
    → IsSole p
    → Counted o
    → TornDown p.hal_shmem_base (given_back boot p o)
given_back-TornDown boot p (done (d, slots)) s c =
    let q = released boot (record p { slots = slots }) in
    (
      record d { mutex = false },
      exited boot p.lib_module_id q,
      refl,
      c.0,
      c.1,
      refl,
      refl,
      exited-unmapped boot p.lib_module_id q (released-unmapped boot p s),
    )
given_back-TornDown boot p hang s c = absurd c
given_back-TornDown boot p fault s c = absurd c

tear_down-TornDown :
    (boot : Boot) (p : Process) (d : HalData)
    → d.mutex ≡ false
    → AllStarted p.slots
    → IsCounted d
    → IsSole p
    → TornDown p.hal_shmem_base (tear_down boot p d)
unfolding tear_down
tear_down-TornDown boot p d m a c o =
    rw (m, if◌then◌else◌)
      (given_back-TornDown boot p _ o (
        free_threads-Counted d.thread_list (record d { state = shutting_down; mutex = true })
          p.slots a refl c))

torn_down-fault :
    (base : ℕ) (o : Outcome (HalData × Process)) → TornDown base o → torn_down o ≡ fault
torn_down-fault base o (d, q, e, l, c, m, b, u) = ap torn_down e ∙ marked-fault q d u

-- For a HAL that is not DESTROYED, with a free mutex and exact use counts, whose tasks all have a thread,
-- where the process has the memory open once and under one handle: before its last write `hal_app_exit`
-- deletes all threads, so that no thread is left and every use count is exact, gives the mutex back,
-- and unmaps the memory; and the call is undefined, since the last write goes to that memory.
pub app_exit-faults :
    (boot : Boot) (p : Process) (d : HalData)
    → p.hal ≡ some d
    → is_destroyed d.state ≡ false
    → d.mutex ≡ false
    → AllStarted p.slots
    → IsCounted d
    → IsSole p
    → TornDown p.hal_shmem_base (tear_down boot p d) × (hal_app_exit boot p ≡ fault)
unfolding hal_app_exit
app_exit-faults boot p d h s m a c o =
    let t = tear_down-TornDown boot p d m a c o in
    (t, rw (h, hal_app_exit) (rw (s, if◌then◌else◌) (torn_down-fault p.hal_shmem_base _ t)))
