-- ===== src/ExampleTask/Setup/Main/Keeping.antt =====
-- What the phases of `task_thread_main` leave alone.
use real_time_system.Common.{
  ℕ, ◌+◌, ◌≡◌, Bool, true, false, Option, some, ◌==◌, if◌then◌else◌, Result, ok, err, Outcome, done,
}
use real_time_system.Common.Int.{ℤ, pos, negsuc}
use real_time_system.Common.Names.{Name, snprintf}
use real_time_system.Common.Runs.{
  Run, pure, after, ◌>>◌, or_return, with_state, put_back, Post, after-Post, zoom-Post,
}
use real_time_system.Hal.Data.{HalData, hal_name_len}
use real_time_system.Hal.App.{Process, init_component}
use real_time_system.Hal.Threads.Create.{Machine, link_thread, pseudo_name, with_component, on_data}
use real_time_system.Hal.Mounting.{hal_add_funct_to_thread}
use real_time_system.Hal.Functs.{hal_export_funct}
use real_time_system.Hal.Comps.{hal_ready}
use real_time_system.ExampleTask.Channel.{Channel}
use real_time_system.ExampleTask.Setup.{
  Application, Site, on_hal, put_hal_data, put_machine, machine_of, failure, store_all,
  initial_values,
}
use real_time_system.ExampleTask.Setup.Texts.{handler_name, controller_name, thread_name}
use real_time_system.ExampleTask.Setup.Main.{
  after_pins, new_params, create_thread, thread_linked, thread_asked, exported, mounted,
  default_subtask, settask_cycle_time, setsubtask_cycle_time, functs_exported, init_task_threads,
  ready, id_of, env_of, cycle_times, thread_made, exports, handler_exported, exports_controller,
  controller_exported, first_param, second_param, new_accel, max_velocity_param, max_accel_param,
}

-- The variables that the real-time functions and the control side read.
abbrev pub Variables : Type 0
Variables = Option Channel × (Option ℕ × ℤ)

abbrev pub variables : Application → Variables
variables a = (a.task_shared, (a.task_hal_data, a.mot_comp_id))

-- Calls that leave them alone.
pub Keeps : {A : Type 0} → Variables → Outcome (A × Application) → Type 0
Keeps x = Post (λ _ a. variables a ≡ x)

module _ (x : Variables) where
  pub Keeps-Post :
      {A : Type 0} (o : Outcome (A × Application)) → Keeps x o → Post (λ _ a. variables a ≡ x) o
  unfolding Keeps
  Keeps-Post o k = k

  pub hal-Keeps :
      {A : Type 0} (a : Application) (o : Outcome (A × Option HalData))
      → variables a ≡ x
      → Keeps x (put_back put_hal_data a o)
  unfolding Keeps
  hal-Keeps a o k = zoom-Post (λ a. variables a ≡ x) put_hal_data a o (λ t. k)

  machine-Keeps :
      {A : Type 0} (a : Application) (o : Outcome (A × Machine))
      → variables a ≡ x
      → Keeps x (put_back put_machine a o)
  unfolding Keeps
  machine-Keeps a o k = zoom-Post (λ a. variables a ≡ x) put_machine a o (λ t. k)

  process-Keeps :
      {A : Type 0} (a : Application) (o : Outcome (A × Process))
      → variables a ≡ x
      → Keeps x (put_back (λ a p. record a { process = p }) a o)
  unfolding Keeps
  process-Keeps a o k =
      zoom-Post (λ a. variables a ≡ x) (λ a p. record a { process = p }) a o (λ t. k)

  after-Keeps :
      {A B : Type 0} (f : A → Run Application B) (o : Outcome (A × Application))
      → Keeps x o
      → ((r : A) (a : Application) → variables a ≡ x → Keeps x (f r a))
      → Keeps x (after f o)
  unfolding Keeps
  after-Keeps f = after-Post (λ _ a. variables a ≡ x) (λ _ a. variables a ≡ x) f

  done-Keeps : {A : Type 0} (r : A) (a : Application) → variables a ≡ x → Keeps x (done (r, a))
  unfolding Keeps
  done-Keeps r a k = k

  or_return-Keeps :
      {A : Type 0} (r : Result A) (k : A → Run Application ℤ) (a : Application)
      → variables a ≡ x
      → ((v : A) → Keeps x (k v a))
      → Keeps x (or_return r failure k a)
  unfolding Keeps
  or_return-Keeps (ok v) k a h l = l v
  or_return-Keeps (err e) k a h l = h

  if-variables :
      (b : Bool) (c a : Application)
      → variables c ≡ x
      → variables a ≡ x
      → variables (if b then c else a) ≡ x
  if-variables true c a h k = h
  if-variables false c a h k = k

  linked-Keeps :
      (site : Site) (name : Name) (r : Result ℕ) (a : Application)
      → variables a ≡ x
      → Keeps x (thread_linked site name r a)
  linked-Keeps site name (err e) a k = done-Keeps (err e) a k
  linked-Keeps site name (ok off) a k =
      after-Keeps (λ r. with_state (λ b. on_hal (with_component (env_of site b) name off r))) _
        (process-Keeps a
          (init_component site.boot site.pseudo_os (some (pseudo_name name)) a.process) k)
        (λ r b h. hal-Keeps b (with_component (env_of site b) name off r b.process.hal) h)

  create-Keeps :
      (site : Site) (a : Application)
      → variables a ≡ x
      → Keeps x (create_thread site (thread_asked a) a)
  unfolding create_thread
  create-Keeps site a k =
      after-Keeps (thread_linked site (snprintf (hal_name_len + 1) thread_name)) _
        (machine-Keeps a (link_thread (env_of site a) (thread_asked a) (machine_of a)) k)
        (linked-Keeps site (snprintf (hal_name_len + 1) thread_name))

  task_time-variables :
      (site : Site) (a : Application) → variables a ≡ x → variables (settask_cycle_time site a) ≡ x
  unfolding settask_cycle_time
  task_time-variables site a k = if-variables (a.task_period_nsec == 0) a _ k k

  subtask_time-variables :
      (site : Site) (a : Application)
      → variables a ≡ x
      → variables (setsubtask_cycle_time site a) ≡ x
  unfolding setsubtask_cycle_time
  subtask_time-variables site a k = if-variables (a.subtask_period_nsec == 0) a _ k k

  mounted-Keeps :
      {A : Type 0} (site : Site) (name : Name) (position : ℤ) (f : Result ℕ → Run Application A)
      (a : Application)
      → variables a ≡ x
      → ((r : Result ℕ) (b : Application) → variables b ≡ x → Keeps x (f r b))
      → Keeps x (after f (mounted site name position a))
  mounted-Keeps site name position f a k l =
      after-Keeps f _
        (hal-Keeps a
          (hal_add_funct_to_thread site.boot.sizes (some name) (some thread_name) position
            a.process.hal)
          k)
        l

  functs-Keeps :
      (site : Site) (a : Application) → variables a ≡ x → Keeps x (functs_exported site a)
  functs-Keeps site a k =
      mounted-Keeps site handler_name (pos 1)
        (λ _. mounted site controller_name (pos 2) >> cycle_times site) a k
        λ _ b h.
          mounted-Keeps site controller_name (pos 2) (λ _. cycle_times site) b h
            λ _ c l. done-Keeps (pos 0) _ (
              subtask_time-variables site (settask_cycle_time site c)
                (task_time-variables site c l))

  exported-Keeps :
      {A : Type 0} (site : Site) (name : Name) (funct : ℕ) (f : Result ℕ → Run Application A)
      (a : Application)
      → variables a ≡ x
      → ((r : Result ℕ) (b : Application) → variables b ≡ x → Keeps x (f r b))
      → Keeps x (after f (exported site name funct a))
  exported-Keeps site name funct f a k l =
      after-Keeps f _
        (hal-Keeps a
          (hal_export_funct site.boot.sizes name
            (record { funct = funct; arg = 0; uses_fp = 1; reentrant = 0 }) (id_of a) a.process.hal)
          k)
        l

  pub threads-Keeps :
      (site : Site) (a : Application) → variables a ≡ x → Keeps x (init_task_threads site a)
  unfolding init_task_threads
  threads-Keeps site a k =
      after-Keeps (thread_made site) _
        (create-Keeps site (default_subtask a) (if-variables (a.subtask_period_nsec == 0) _ a k k))
        λ r b h.
          or_return-Keeps r (λ _. exports site) b h
            λ _. exported-Keeps site handler_name site.handler (handler_exported site) b h λ r c l.
              or_return-Keeps r (λ _. exports_controller site) c l
                λ _.
                  exported-Keeps site controller_name site.controller (controller_exported site) c l
                    λ r d m.
                      or_return-Keeps r (λ _. functs_exported site) d m λ _. functs-Keeps site d m

  pub ready-Keeps : (a : Application) → variables a ≡ x → Keeps x (ready a)
  ready-Keeps a k =
      after-Keeps (λ _. pure (pos 0)) _
        (hal-Keeps a (on_data (hal_ready (id_of a)) a.process.hal) k)
        (λ _ b h. done-Keeps (pos 0) b h)

  params-Keeps :
      (site : Site) (off id : ℕ) (a : Application)
      → variables a ≡ x
      → Keeps x (new_params site off id a)
  params-Keeps site off id a k =
      after-Keeps (first_param site off id) _
        (hal-Keeps a (max_velocity_param site off id a.process.hal) k)
        λ r b h.
          or_return-Keeps r (λ _. new_accel site off id) b h
            λ _.
              after-Keeps second_param _ (hal-Keeps b (max_accel_param site off id b.process.hal) h)
                λ r c l. or_return-Keeps r (λ _. pure (pos 0)) c l λ _. done-Keeps (pos 0) c l

  pub pins-Keeps :
      (site : Site) (off : ℕ) (r : ℤ) (a : Application)
      → variables a ≡ x
      → Keeps x (after_pins site off r a)
  pins-Keeps site off (negsuc n) a k = done-Keeps failure a k
  pins-Keeps site off (pos n) a k =
      after-Keeps (λ _. with_state (λ b. new_params site off (id_of b))) _
        (hal-Keeps a
          (store_all site.boot.sizes a.process.hal_shmem_base off (initial_values site.block)
            a.process.hal)
          k)
        (λ _ b h. params-Keeps site off (id_of b) b h)
