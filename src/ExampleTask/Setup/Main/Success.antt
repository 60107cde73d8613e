-- ===== src/ExampleTask/Setup/Main/Success.antt =====
-- The variables of the example task after a successful `task_thread_main`.
use real_time_system.Common.{
  ℕ, zero, suc, ◌≡◌, refl, ap, ◌∙◌, Bool, true, false, Option, none, some, List, get_elem?, Result,
  ok, err, done,
}
use real_time_system.Common.Int.{ℤ, pos, negsuc}
use real_time_system.Common.Runs.{
  Run, pure, after, ◌>>=◌, Post, after-Post, Post-any, Post-weaken, Post-done, Post-and,
}
use real_time_system.Rtapi.Shmem.{Handle, rtapi_shmem_new, rtapi_shmem_getptr}
use real_time_system.Rtapi.Shmem.Uuid.{is_first}
use real_time_system.Hal.App.{init_component, with_handles}
use real_time_system.ExampleTask.Channel.{Channel, cmd_none}
use real_time_system.ExampleTask.Setup.{
  Application, Site, on_process, on_hal, failure, allocate, new_pins, pins_of, task_shm_key,
}
use real_time_system.ExampleTask.Setup.Texts.{component_name}
use real_time_system.ExampleTask.Setup.Main.{
  init_hal_param, with_block, after_pins, init_task_comm_buffers, shared_content, without_command,
  shared_opened, shared_mapped, init_task_threads, exit_hal, phase_failed, or_exit, ready,
  configured, has_axes, component_named, with_param, with_comm, task_thread_main, id_of,
}
use real_time_system.ExampleTask.Setup.Main.Phases.{HasPhases}
use real_time_system.ExampleTask.Setup.Main.Returned.{main-done}
use real_time_system.ExampleTask.Setup.Main.Keeping.{
  Variables, variables, Keeps-Post, hal-Keeps, threads-Keeps, ready-Keeps, pins-Keeps,
}

-- The pointers to the channel and to the block are set, the command is NONE, and there is an id.
abbrev pub IsSetUp : Application → Type 0
IsSetUp a =
    (c : Channel) × (off : ℕ) × (id : ℕ) × (a.task_shared ≡ some c)
    × (c.command_id ≡ cmd_none)
    × (c.command_data ≡ pos 0)
    × (a.task_hal_data ≡ some off)
    × (a.mot_comp_id ≡ pos id)

-- What holds where a call returns 0.
abbrev pub IfZero : (Application → Type 0) → ℤ → Application → Type 0
IfZero P r a = r ≡ pos 0 → P a

failed : (P : Application → Type 0) (a : Application) → IfZero P failure a
failed P a e = cc

phase_failed-Post :
    (P : Application → Type 0) (site : Site) (a : Application)
    → Post (IfZero P) (phase_failed site a)
phase_failed-Post P site a =
    after-Post (λ _ _. Unit {0}) (IfZero P) (λ _. pure failure) (exit_hal site a)
      (Post-any (exit_hal site a)) (λ r b u. failed P b)

or_exit-Post :
    (P : Application → Type 0) (site : Site) (r : ℤ) (k : Run Application ℤ) (a : Application)
    → (r ≡ pos 0 → Post (IfZero P) (k a))
    → Post (IfZero P) (or_exit site r k a)
or_exit-Post P site (pos zero) k a l = l refl
or_exit-Post P site (pos (suc n)) k a l = phase_failed-Post P site a
or_exit-Post P site (negsuc n) k a l = phase_failed-Post P site a

-- The last phases.
threads-Post :
    (site : Site) (a : Application) (c : Channel) (off id : ℕ)
    → variables a ≡ (some c, (some off, pos id))
    → c.command_id ≡ cmd_none
    → c.command_data ≡ pos 0
    → Post (IfZero IsSetUp) (after (λ r. or_exit site r ready) (init_task_threads site a))
threads-Post site a c off id v e z =
    let x : Variables = (some c, (some off, pos id)) in
    after-Post (λ _ b. variables b ≡ x) (IfZero IsSetUp) (λ r. or_exit site r ready)
      (init_task_threads site a)
      (Keeps-Post x (init_task_threads site a) (threads-Keeps x site a v))
      λ r b h. or_exit-Post IsSetUp site r ready b λ _.
        Post-weaken (λ _ b. variables b ≡ x) (IfZero IsSetUp) (ready b)
          (Keeps-Post x (ready b) (ready-Keeps x b h))
          (λ r d k _. (c, off, id, ap (λ v. v.0) k, e, z, ap (λ v. v.1.0) k, ap (λ v. v.1.1) k))

-- The channel after its phase.
abbrev HasChannel : ℕ → ℕ → Application → Type 0
HasChannel off id a =
    (c : Channel) × (variables a ≡ (some c, (some off, pos id)))
    × (c.command_id ≡ cmd_none)
    × (c.command_data ≡ pos 0)

mapped-Post :
    (site : Site) (first : Bool) (a : Application) (off id : ℕ) (r : Result ℕ)
    → a.task_hal_data ≡ some off
    → a.mot_comp_id ≡ pos id
    → Post (IfZero (HasChannel off id)) (shared_mapped site first a r)
mapped-Post site first a off id (err e) h m = failed (HasChannel off id) a
mapped-Post site first a off id (ok mem) h m =
    let c = without_command (shared_content site first a.task_shared) in
    λ _. (
      c,
      ap (λ h. (some c, (h, a.mot_comp_id))) h ∙ ap (λ m. (some c, (some off, m))) m,
      refl,
      refl,
    )

opened-Post :
    (site : Site) (a : Application) (off id : ℕ) (r : Result ℕ × List Handle)
    → a.task_hal_data ≡ some off
    → a.mot_comp_id ≡ pos id
    → Post (IfZero (HasChannel off id)) (shared_opened site a r)
opened-Post site a off id (err e, hs) h m = λ z. cc
opened-Post site a off id (ok n, hs) h m =
    mapped-Post site (is_first (get_elem? hs n))
      (record a { process = with_handles hs a.process; emc_shmem_id = pos n }) off id
      (rtapi_shmem_getptr hs (pos n)) h m

comm-Post :
    (site : Site) (a : Application) (off id : ℕ)
    → a.task_hal_data ≡ some off
    → a.mot_comp_id ≡ pos id
    → Post (IfZero (HasChannel off id)) (init_task_comm_buffers site a)
unfolding init_task_comm_buffers
comm-Post site a off id h m =
    opened-Post site a off id
      (rtapi_shmem_new site.shared_os task_shm_key site.shared_size a.process.modules.handles) h m

-- The block after its phase.
abbrev HasBlock : ℕ → Application → Type 0
HasBlock id a = (off : ℕ) × (a.task_hal_data ≡ some off) × (a.mot_comp_id ≡ pos id)

block-Post :
    (site : Site) (o : Option ℕ) (a : Application) (id : ℕ)
    → a.mot_comp_id ≡ pos id
    → Post (IfZero (HasBlock id)) (with_block site o a)
block-Post site none a id m = λ z. cc
block-Post site (some off) a id m =
    let b = record a { task_hal_data = some off; max_velocity = pos 1000; max_accel = pos 500 } in
    let x = variables b in
    let pins = new_pins site.boot.sizes off (id_of b) (pins_of site.block) in
    after-Post (λ _ d. variables d ≡ x) (IfZero (HasBlock id)) (after_pins site off) (on_hal pins b)
      (Keeps-Post x (on_hal pins b) (hal-Keeps x b (pins b.process.hal) refl))
      λ r d k.
        Post-weaken (λ _ d. variables d ≡ x) (IfZero (HasBlock id)) (after_pins site off r d)
          (Keeps-Post x (after_pins site off r d) (pins-Keeps x site off r d k))
          (λ r f l _. (off, ap (λ v. v.1.0) l, ap (λ v. v.1.1) l ∙ m))

param-Post :
    (site : Site) (a : Application) (id : ℕ)
    → a.mot_comp_id ≡ pos id
    → Post (IfZero (HasBlock id)) (init_hal_param site a)
unfolding init_hal_param
param-Post site a id m =
    let x = variables a in
    let got = on_hal (allocate site.block.size) a in
    after-Post (λ _ b. variables b ≡ x) (IfZero (HasBlock id)) (with_block site) got
      (Keeps-Post x got (hal-Keeps x a (allocate site.block.size a.process.hal) refl))
      (λ o b k. block-Post site o b id (ap (λ v. v.1.1) k ∙ m))

configured-Post :
    (site : Site) (b : Bool) (a : Application) (id : ℕ)
    → a.mot_comp_id ≡ pos id
    → Post (IfZero IsSetUp) (configured site b a)
configured-Post site false a id m = phase_failed-Post IsSetUp site a
configured-Post site true a id m =
    after-Post (IfZero (HasBlock id)) (IfZero IsSetUp) (with_param site) (init_hal_param site a)
      (param-Post site a id m)
      λ r b h. or_exit-Post IsSetUp site r (init_task_comm_buffers site >>= with_comm site) b λ z.
        after-Post (IfZero (HasChannel (h z).0 id)) (IfZero IsSetUp) (with_comm site)
          (init_task_comm_buffers site b) (comm-Post site b (h z).0 id (h z).1 (h z).2)
          λ r d l.
            or_exit-Post IsSetUp site r (init_task_threads site >>= (λ r. or_exit site r ready)) d
              λ y. threads-Post site d (l y).0 (h z).0 id (l y).1 (l y).2 (l y).3

named-Post :
    (site : Site) (r : Result ℕ) (a : Application)
    → Post (IfZero IsSetUp) (component_named site r a)
named-Post site (err e) a = λ z. cc
named-Post site (ok id) a =
    let b = record a { mot_comp_id = pos id } in configured-Post site (has_axes b) b id refl

variables-Post : (site : Site) (a : Application) → Post (IfZero IsSetUp) (task_thread_main site a)
unfolding task_thread_main
variables-Post site a =
    let made = on_process (init_component site.boot site.uuid_os (some component_name)) a in
    after-Post (λ _ _. Unit {0}) (IfZero IsSetUp) (component_named site) made (Post-any made)
      (λ r b u. named-Post site r b)

phases-Post :
    (site : Site) (a : Application) → Post (IfZero (HasPhases site a)) (task_thread_main site a)
phases-Post site a =
    Post-done (IfZero (HasPhases site a)) (task_thread_main site a)
      λ r b e z. main-done site a b (e ∙ ap (λ r. done (r, b)) z)

-- If `task_thread_main` returns 0, then these calls have succeeded, each in the state that the one before
-- has left: `hal_init`, the test of the number of axes, `hal_malloc`, the registration of the pins, their
-- first values, the two parameters, `init_task_comm_buffers`, `hal_create_thread` and the exports of the
-- handler and of the controller, in this order; then both have been handed to `hal_add_funct_to_thread`, the
-- handler at position 1 and the controller at 2, the cycle times set, and `hal_ready` called. In the end
-- `taskShared` leads to a channel whose command is NONE with data 0, `taskHalData` to a block, and `mot_comp_id` is
-- not negative.
pub main-IsSetUp :
    (site : Site) (a : Application)
    → Post (IfZero (λ b. HasPhases site a b × IsSetUp b)) (task_thread_main site a)
main-IsSetUp site a =
    Post-weaken (λ r b. IfZero (HasPhases site a) r b × IfZero IsSetUp r b)
      (IfZero (λ b. HasPhases site a b × IsSetUp b)) (task_thread_main site a)
      (Post-and (IfZero (HasPhases site a)) (IfZero IsSetUp) (task_thread_main site a)
        (phases-Post site a) (variables-Post site a))
      (λ r b p z. (p.0 z, p.1 z))
