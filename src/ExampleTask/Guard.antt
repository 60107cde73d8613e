-- ===== src/ExampleTask/Guard.antt =====
-- ExampleTask/operate.cpp: `ExampleTaskGuard`, which owns the example task (`init`, `start`, `stop` and
-- `shutdown`, which the destructor calls).
pub mod Calls
mod Tests
use real_time_system.Common.{
  ℕ, zero, suc, Bool, true, false, Option, none, some, List, if◌then◌else◌, Result, ok, err,
  Outcome, done, hang, fault,
}
use real_time_system.Common.Int.{ℤ, pos, negsuc}
use real_time_system.Common.Runs.{Run, pure, after, ◌>>=◌, ◌>>◌, put_back, zoom, change}
use real_time_system.Hal.Data.{HalData}
use real_time_system.Hal.Lifecycle.{hal_start_threads, hal_stop_threads}
use real_time_system.ExampleTask.Setup.{Application, Site, on_hal, failure}
use real_time_system.ExampleTask.Setup.Main.{task_thread_main, task_thread_exit}

-- The task, and the fields `owns_` and `started_`.
pub record Guard : Type 0 where
  pub app : Application
  pub owns : Bool
  pub started : Bool

abbrev on_app : {A : Type 0} → Run Application A → Run Guard A
on_app = zoom (λ (g : Guard). g.app) (λ g a. record g { app = a })

abbrev owned : ℤ → Run Guard ℤ
owned (pos zero) = do change (λ g. record g { owns = true }); pure (pos 0)
owned (pos (suc n)) = pure failure
owned (negsuc n) = pure failure

unfoldable pub init : Site → Run Guard ℤ
unfolding task_thread_main
init site g = if g.owns then done (pos 0, g) else after owned (on_app (task_thread_main site) g)

-- A call on the HAL, and what `started_` is if it succeeds.
abbrev switched : Bool → Result ℕ → Run Guard ℤ
switched b (err e) = pure failure
switched b (ok r) = do change (λ g. record g { started = b }); pure (pos 0)

abbrev start_hal : Run (Option HalData) (Result ℕ)
start_hal h = done (hal_start_threads h)

abbrev stop_hal : Run (Option HalData) (Result ℕ)
stop_hal h = done (hal_stop_threads h)

unfoldable pub start : Run Guard ℤ
unfolding hal_start_threads
start g =
    if g.owns
    then if g.started then done (pos 0, g) else after (switched true) (on_app (on_hal start_hal) g)
    else done (failure, g)

unfoldable pub stop : Run Guard ℤ
unfolding hal_stop_threads
stop g = if g.started then after (switched false) (on_app (on_hal stop_hal) g) else done (pos 0, g)

abbrev closed : Guard → Guard
closed g = record g { owns = false; started = false }

-- `stop` returns at once where the threads are not started.
abbrev torn_down : Site → Run Guard (Unit {0})
torn_down site = do on_app (task_thread_exit site); change closed

unfoldable pub shutdown : Site → Run Guard (Unit {0})
unfolding stop task_thread_exit
shutdown site g = if g.owns then after (λ _. torn_down site) (stop g) else done (tt, g)
