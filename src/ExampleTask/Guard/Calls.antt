-- ===== src/ExampleTask/Guard/Calls.antt =====
-- Sequences of calls on `ExampleTaskGuard`.
use real_time_system.Common.{
  ℕ, zero, suc, ◌≡◌, refl, sym, ap, ◌∙◌, Bool, true, false, some, List, [], ◌∷◌, if◌then◌else◌,
  Result, ok, err, Outcome, done, hang, fault, Bool-cases, inl, inr,
}
use real_time_system.Common.Int.{ℤ, pos, negsuc}
use real_time_system.Common.Runs.{
  Run, pure, after, ◌>>=◌, put_back, change, Post, after-Post, zoom-Post,
}
use real_time_system.Hal.Data.{HalData, active, running, hal_lock_run}
use real_time_system.Hal.Calls.{is_locked}
use real_time_system.Hal.Lifecycle.{hal_start_threads, hal_stop_threads}
use real_time_system.ExampleTask.Setup.{Application, Site, on_hal, put_hal_data}
use real_time_system.ExampleTask.Setup.Main.{task_thread_main, task_thread_exit}
use real_time_system.ExampleTask.Guard.{
  Guard, on_app, owned, switched, closed, torn_down, init, start, stop, shutdown, start_hal,
  stop_hal,
}

shutdown_closed : (site : Site) (g : Guard) → g.owns ≡ false → shutdown site g ≡ done (tt, g)
unfolding shutdown
shutdown_closed site g e = rw (e, if◌then◌else◌) refl

shutdown_owned :
    (site : Site) (g : Guard)
    → g.owns ≡ true
    → shutdown site g ≡ after (λ _. torn_down site) (stop g)
unfolding shutdown
shutdown_owned site g e = rw (e, if◌then◌else◌) refl

again_closed :
    (site : Site) (o : Outcome (Unit {0} × Guard))
    → after (λ _. shutdown site) (after (λ _. change closed) o) ≡ after (λ _. change closed) o
again_closed site (done (u, g)) = shutdown_closed site (closed g) refl
again_closed site hang = refl
again_closed site fault = refl

after_again :
    (site : Site) (o : Outcome (ℤ × Guard))
    → after (λ _. shutdown site) (after (λ _. torn_down site) o) ≡ after (λ _. torn_down site) o
after_again site (done (r, g)) = again_closed site (on_app (task_thread_exit site) g)
after_again site hang = refl
after_again site fault = refl

-- Shutting down a second time, as the destructor does after an explicit `shutdown`, does nothing, whatever
-- the state of the guard and of the task, and however the first call ends.
pub shutdown_twice :
    (site : Site) (g : Guard) → after (λ _. shutdown site) (shutdown site g) ≡ shutdown site g
shutdown_twice site g = elim (Bool-cases g.owns) [
  | inl e ↦
      let q = shutdown_owned site g e in
      ap (after (λ _. shutdown site)) q ∙ after_again site (stop g) ∙ sym q
  | inr e ↦ ap (after (λ _. shutdown site)) (shutdown_closed site g e)
]

start_active :
    (g : Guard) (d : HalData)
    → g.owns ≡ true
    → g.started ≡ false
    → g.app.process.hal ≡ some d
    → d.state ≡ active
    → is_locked hal_lock_run d ≡ false
    → start g
      ≡ done (
        pos 0,
        record g {
          app = put_hal_data g.app (some (record d { threads_running = 1; state = running }));
          started = true;
        },
      )
unfolding start hal_start_threads
start_active g d o s h a l =
    rw (o, if◌then◌else◌)
      (rw (s, if◌then◌else◌)
        (rw (h, hal_start_threads) (rw (l, if◌then◌else◌) (rw (a, put_back) refl))))

stop_running :
    (g : Guard) (d : HalData)
    → g.started ≡ true
    → g.app.process.hal ≡ some d
    → d.state ≡ running
    → is_locked hal_lock_run d ≡ false
    → stop g
      ≡ done (
        pos 0,
        record g {
          app = put_hal_data g.app (some (record d { threads_running = 0; state = active }));
          started = false;
        },
      )
unfolding stop hal_stop_threads
stop_running g d s h a l =
    rw (s, if◌then◌else◌) (rw (h, hal_stop_threads) (rw (l, if◌then◌else◌) (rw (a, put_back) refl)))

-- For a guard that owns a task that is not started, over a HAL that is ACTIVE, with no thread running and
-- not locked against it, `start` and then `stop` both return 0, the threads run in between, and in the end
-- everything is as it was.
pub stop-start :
    (g : Guard) (d : HalData)
    → g.owns ≡ true
    → g.started ≡ false
    → g.app.process.hal ≡ some d
    → d.state ≡ active
    → d.threads_running ≡ 0
    → is_locked hal_lock_run d ≡ false
    → (g' : Guard) × (d' : HalData) × (start g ≡ done (pos 0, g'))
      × (g'.app.process.hal ≡ some d')
      × (d'.threads_running ≡ 1)
      × (stop g' ≡ done (pos 0, g))
stop-start g d o s h a z l =
    let d1 = record d { threads_running = 1; state = running } in
    let g1 = record g { app = put_hal_data g.app (some d1); started = true } in
    (
      g1,
      d1,
      start_active g d o s h a l,
      refl,
      refl,
      stop_running g1 d1 refl refl refl l
          ∙ ap
              (λ n.
                let d2 = record d { threads_running = n; state = active } in
                done (pos 0, record g { app = put_hal_data g.app (some d2); started = false }))
              (sym z)
          ∙ ap
              (λ x.
                let d2 = record d { state = x } in
                done (pos 0, record g { app = put_hal_data g.app (some d2); started = false }))
              (sym a)
          ∙ ap (λ x. done (pos 0, record g { app = put_hal_data g.app x; started = false })) (sym h)
          ∙ ap (λ b. done (pos 0, record g { started = b })) (sym s),
    )

pub data Command : Type 0 where
  inits : Site → Command
  starts : Command
  stops : Command
  shuts_down : Site → Command

abbrev status : Outcome (Unit {0} × Guard) → Outcome (ℤ × Guard)
status (done (u, g)) = done (pos 0, g)
status hang = hang
status fault = fault

pub command : Command → Run Guard ℤ
unfolding init start stop shutdown
command (inits site) = init site
command starts = start
command stops = stop
command (shuts_down site) = λ g. status (shutdown site g)

pub commands : List Command → Run Guard (List ℤ)
unfolding command
commands [] = pure []
commands (c ∷ cs) = do r ← command c; rs ← commands cs; pure (r ∷ rs)

-- Only a guard that owns the task has its threads started.
abbrev pub IsOwned : Guard → Type 0
IsOwned g = g.started ≡ true → g.owns ≡ true

abbrev Owned : {A : Type 0} → Outcome (A × Guard) → Type 0
Owned = Post (λ _. IsOwned)

on_app-Owned : {A : Type 0} (f : Run Application A) (g : Guard) → IsOwned g → Owned (on_app f g)
on_app-Owned f g k = zoom-Post IsOwned (λ g a. record g { app = a }) g (f g.app) (λ a. k)

owned-Owned : (r : ℤ) (g : Guard) → IsOwned g → Owned (owned r g)
owned-Owned (pos zero) g k = λ e. refl
owned-Owned (pos (suc n)) g k = k
owned-Owned (negsuc n) g k = k

Owned-if :
    {A : Type 0} (b : Bool) (x y : Outcome (A × Guard))
    → (b ≡ true → Owned x)
    → (b ≡ false → Owned y)
    → Owned (if b then x else y)
Owned-if true x y p q = p refl
Owned-if false x y p q = q refl

abbrev after-Owned :
    {A B : Type 0} (f : A → Run Guard B) (o : Outcome (A × Guard))
    → Owned o
    → ((a : A) (g : Guard) → IsOwned g → Owned (f a g))
    → Owned (after f o)
after-Owned f = after-Post (λ _. IsOwned) (λ _. IsOwned) f

init-Owned : (site : Site) (g : Guard) → IsOwned g → Owned (init site g)
unfolding init
init-Owned site g k =
    Owned-if g.owns (done (pos 0, g)) (after owned (on_app (task_thread_main site) g)) (λ e. k)
      (λ e.
        after-Owned owned (on_app (task_thread_main site) g)
          (on_app-Owned (task_thread_main site) g k) owned-Owned)

switched_on-Owned : (r : Result ℕ) (g : Guard) → g.owns ≡ true → Owned (switched true r g)
switched_on-Owned (ok r) g o = λ e. o
switched_on-Owned (err x) g o = λ e. o

switched_off-Owned : (r : Result ℕ) (g : Guard) → IsOwned g → Owned (switched false r g)
switched_off-Owned (ok r) g k = λ e. cc
switched_off-Owned (err x) g k = k

start-Owned : (g : Guard) → IsOwned g → Owned (start g)
unfolding start
start-Owned g k =
    Owned-if g.owns _ _
      (λ e.
        Owned-if g.started _ _ (λ s. k)
          (λ s.
            after-Post (λ _ x. x.owns ≡ true) (λ _. IsOwned) (switched true)
              (on_app (on_hal start_hal) g) e switched_on-Owned))
      (λ e. k)

stop-Owned : (g : Guard) → IsOwned g → Owned (stop g)
unfolding stop
stop-Owned g k =
    Owned-if g.started _ _
      (λ s.
        after-Owned (switched false) (on_app (on_hal stop_hal) g)
          (on_app-Owned (on_hal stop_hal) g k) switched_off-Owned)
      (λ s. k)

torn_down-Owned : (site : Site) (g : Guard) → IsOwned g → Owned (torn_down site g)
torn_down-Owned site g k =
    after-Owned (λ _. change closed) (on_app (task_thread_exit site) g)
      (on_app-Owned (task_thread_exit site) g k) (λ u s h. λ e. cc)

status-Owned : (o : Outcome (Unit {0} × Guard)) → Owned o → Owned (status o)
status-Owned (done (u, g)) k = k
status-Owned hang k = k
status-Owned fault k = k

command-Owned : (c : Command) (g : Guard) → IsOwned g → Owned (command c g)
unfolding command shutdown
command-Owned (inits site) g k = init-Owned site g k
command-Owned starts g k = start-Owned g k
command-Owned stops g k = stop-Owned g k
command-Owned (shuts_down site) g k = status-Owned (shutdown site g) (
    Owned-if g.owns _ _
      (λ e.
        after-Owned (λ _. torn_down site) (stop g) (stop-Owned g k) (λ r h. torn_down-Owned site h))
      (λ e. k))

-- Whatever calls of `init`, `start`, `stop` and `shutdown` are made on a guard, in any order, and whether
-- they succeed or fail: a guard that says its threads are started owns the task.
pub commands-IsOwned :
    (cs : List Command) (g : Guard) → IsOwned g → Post (λ _. IsOwned) (commands cs g)
unfolding commands
commands-IsOwned [] g k = k
commands-IsOwned (c ∷ cs) g k =
    after-Owned (λ r. commands cs >>= λ rs. pure (r ∷ rs)) (command c g) (command-Owned c g k)
      λ r h kh.
        after-Owned (λ rs. pure (r ∷ rs)) (commands cs h) (commands-IsOwned cs h kh) λ rs i ki. ki
