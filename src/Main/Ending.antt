-- ===== src/Main/Ending.antt =====
-- How the program ends.
use real_time_system.Common.{
  ℕ, zero, suc, ◌≡◌, refl, Bool, true, false, List, if◌then◌else◌, Outcome, done, hang, fault,
}
use real_time_system.Common.Int.{ℤ, pos, negsuc}
use real_time_system.Common.Runs.{
  Run, pure, after, ◌>>◌, change, Post, after-Post, zoom-Post, Post-any,
}
use real_time_system.ExampleTask.Setup.{Site, on_hal}
use real_time_system.ExampleTask.Setup.Main.{task_thread_exit}
use real_time_system.Main.{
  Signal, Program, on_task, start_hal, stop_hal, stop_threads, stop_started, exit_task,
  emctask_shutdown, emctask_startup, started, main_loop, ended, stopped, looped, threads_up, up,
  main,
}

-- No threads are started, and the task is not initialised.
abbrev pub IsOver : Program → Type 0
IsOver p = (p.threads_started ≡ false) × (p.task_initialised ≡ false)

abbrev IsStopped : Program → Type 0
IsStopped p = p.threads_started ≡ false

Post-if :
    {A : Type 0} (P : A → Program → Type 0) (b : Bool) (x y : Outcome (A × Program))
    → Post P x
    → (b ≡ false → Post P y)
    → Post P (if b then x else y)
Post-if P true x y p q = p
Post-if P false x y p q = q refl

stop-IsStopped : (p : Program) → Post (λ _. IsStopped) (stop_started p)
stop-IsStopped p =
    Post-if (λ _. IsStopped) p.threads_started (stop_threads p) (done (tt, p))
      (after-Post (λ _ _. Unit {0}) (λ _. IsStopped)
        (λ _. change (λ p. record p { threads_started = false })) (on_task (on_hal stop_hal) p)
        (Post-any (on_task (on_hal stop_hal) p)) (λ r q u. refl))
      (λ e. e)

exit-IsOver :
    (site : Site) (p : Program)
    → IsStopped p
    → Post (λ _. IsOver) (exit_task (on_task (task_thread_exit site)) p)
exit-IsOver site p s =
    let leave = on_task (task_thread_exit site) in
    let clear : Run Program (Unit {0}) = change (λ p. record p { task_initialised = false }) in
    Post-if (λ _. IsOver) p.task_initialised ((leave >> clear) p) (done (tt, p))
      (after-Post (λ _. IsStopped) (λ _. IsOver) (λ _. clear) (leave p)
        (zoom-Post IsStopped (λ p a. record p { app = a }) p (task_thread_exit site p.app) (λ t. s))
        (λ u q k. (k, refl)))
      (λ e. (s, e))

shutdown-IsOver : (site : Site) (p : Program) → Post (λ _. IsOver) (emctask_shutdown site p)
unfolding emctask_shutdown
shutdown-IsOver site p =
    after-Post (λ _. IsStopped) (λ _. IsOver) (λ _. exit_task (on_task (task_thread_exit site)))
      (stop_started p) (stop-IsStopped p) (λ u q k. exit-IsOver site q k)

shutdown_over : (site : Site) (p : Program) → IsOver p → emctask_shutdown site p ≡ done (tt, p)
unfolding emctask_shutdown
shutdown_over site p o = rw (o.0, if◌then◌else◌) (rw (o.1, if◌then◌else◌) refl)

again :
    (site : Site) (o : Outcome (Unit {0} × Program))
    → Post (λ _. IsOver) o
    → after (λ _. emctask_shutdown site) o ≡ o
again site (done (u, p)) k = shutdown_over site p k
again site hang k = refl
again site fault k = refl

-- `emctask_shutdown` twice, as in a start that fails, does what it does once, whatever the state of the
-- program and however the first call ends.
pub shutdown_again :
    (site : Site) (p : Program)
    → after (λ _. emctask_shutdown site) (emctask_shutdown site p) ≡ emctask_shutdown site p
shutdown_again site p = again site (emctask_shutdown site p) (shutdown-IsOver site p)

abbrev Over : {A : Type 0} → Outcome (A × Program) → Type 0
Over = Post (λ _. IsOver)

any-Over :
    {A B : Type 0} (f : A → Run Program B) (o : Outcome (A × Program))
    → ((a : A) (p : Program) → Over (f a p))
    → Over (after f o)
any-Over f o k = after-Post (λ _ _. Unit {0}) (λ _. IsOver) f o (Post-any o) (λ a p u. k a p)

ended-Over : (site : Site) (code : ℕ) (p : Program) → Over (ended site code p)
ended-Over site code p =
    after-Post (λ _. IsOver) (λ _. IsOver) (λ _. pure code) (emctask_shutdown site p)
      (shutdown-IsOver site p) (λ u q k. k)

up-Over : (site : Site) (ss : List Signal) (r : ℤ) (p : Program) → Over (up site ss r p)
up-Over site ss (pos (suc n)) p = ended-Over site 1 p
up-Over site ss (negsuc n) p = ended-Over site 1 p
up-Over site ss (pos zero) p = any-Over (threads_up site ss) (on_task (on_hal start_hal) p) λ r q.
    any-Over (λ _. looped site ss) (started r q)
      λ _ s.
        any-Over (λ _. stopped site) (main_loop ss s)
          λ _ t. any-Over (λ _. ended site 0) (stop_started t) λ _ u. ended-Over site 0 u

-- Whenever `main` ends, be it that the start fails at any point or that a signal comes, with or without the
-- threads of the HAL running, no threads are marked as started any more and the task is not marked as set up.
pub main-IsOver :
    (site : Site) (printer : ℤ) (ss : List Signal) (p : Program)
    → Post (λ _. IsOver) (main site printer ss p)
unfolding main
main-IsOver site printer ss p =
    any-Over (up site ss) (emctask_startup site printer p) (λ r q. up-Over site ss r q)
