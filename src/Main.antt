-- ===== src/Main.antt =====
-- main/taskmain.cpp: the program, without its messages, its timer and the measurement of its loop.
pub mod Ending
mod Tests
use real_time_system.Common.{
  ℕ, zero, suc, Bool, true, false, ◌&&◌, not, Option, List, [], ◌∷◌, if◌then◌else◌, Result, ok, err,
  Outcome, done, hang, fault,
}
use real_time_system.Common.Int.{ℤ, pos, negsuc}
use real_time_system.Common.Runs.{Run, pure, after, ◌>>=◌, ◌>>◌, zoom, change}
use real_time_system.Hal.Data.{HalData}
use real_time_system.Hal.Lifecycle.{hal_start_threads, hal_stop_threads}
use real_time_system.Hal.App.{hal_app_main}
use real_time_system.ExampleTask.Setup.{Application, Site, on_hal, on_process, failure}
use real_time_system.ExampleTask.Setup.Main.{task_thread_main, task_thread_exit}

-- The signals that the program handles.
pub data Signal : Type 0 where
  sigint sigterm : Signal

abbrev is_sigterm : Signal → Bool
is_sigterm sigterm = true
is_sigterm sigint = false

-- The task and the variables `task_initialised`, `threads_started` and `done`.
pub record Program : Type 0 where
  pub app : Application
  pub task_initialised : Bool
  pub threads_started : Bool
  pub is_done : Bool

abbrev pub on_task : {A : Type 0} → Run Application A → Run Program A
on_task = zoom (λ (p : Program). p.app) (λ p a. record p { app = a })

abbrev start_hal : Run (Option HalData) (Result ℕ)
start_hal h = done (hal_start_threads h)

abbrev stop_hal : Run (Option HalData) (Result ℕ)
stop_hal h = done (hal_stop_threads h)

-- What `hal_stop_threads` returns is not tested.
abbrev stop_threads : Run Program (Unit {0})
stop_threads = do on_task (on_hal stop_hal); change (λ p. record p { threads_started = false })

abbrev stop_started : Run Program (Unit {0})
stop_started p = if p.threads_started then stop_threads p else done (tt, p)

-- A signal that comes while none is handled.
unfoldable pub emctask_quit : Signal → Run Program (Unit {0})
unfolding hal_stop_threads
emctask_quit s p =
    let q = record p { is_done = true } in
    if is_sigterm s && p.threads_started then stop_threads q else done (tt, q)

abbrev exit_task : Run Program (Unit {0}) → Run Program (Unit {0})
exit_task leave p =
    if p.task_initialised
    then (leave >> change (λ p. record p { task_initialised = false })) p
    else done (tt, p)

unfoldable pub emctask_shutdown : Site → Run Program (Unit {0})
unfolding hal_stop_threads task_thread_exit
emctask_shutdown site = do stop_started; exit_task (on_task (task_thread_exit site))

-- After `task_thread_main`
abbrev initialised : Site → ℤ → Run Program ℤ
initialised site (pos zero) = do change (λ p. record p { task_initialised = true }); pure (pos 0)
initialised site (pos (suc n)) = emctask_shutdown site >> pure failure
initialised site (negsuc n) = emctask_shutdown site >> pure failure

-- After `hal_app_main`
abbrev hal_up : Site → Result ℕ → Run Program ℤ
hal_up site (ok zero) = on_task (task_thread_main site) >>= initialised site
hal_up site (ok (suc n)) = pure failure
hal_up site (err e) = pure failure

-- `printer` is what `printfMaster` returns, which starts the thread that prints messages.
unfoldable pub emctask_startup : Site → ℤ → Run Program ℤ
unfolding emctask_shutdown hal_app_main task_thread_main
emctask_startup site (pos zero) = on_task (on_process (hal_app_main site.boot)) >>= hal_up site
emctask_startup site (pos (suc n)) = pure failure
emctask_startup site (negsuc n) = pure failure

abbrev started : Result ℕ → Run Program (Unit {0})
started (ok zero) = change (λ p. record p { threads_started = true })
started (ok (suc n)) = pure tt
started (err e) = pure tt

-- The loop ends with the first signal; without one it goes on for ever.
abbrev main_loop : List Signal → Run Program (Unit {0})
main_loop [] p = if p.is_done then done (tt, p) else hang
main_loop (s ∷ ss) p = if p.is_done then done (tt, p) else emctask_quit s p

-- The rest of `main` after `emctask_startup`, from the inside out; the value is that of `exit`.
abbrev ended : Site → ℕ → Run Program ℕ
ended site code = emctask_shutdown site >> pure code

abbrev stopped : Site → Run Program ℕ
stopped site = stop_started >> ended site 0

abbrev looped : Site → List Signal → Run Program ℕ
looped site ss = main_loop ss >> stopped site

abbrev threads_up : Site → List Signal → Result ℕ → Run Program ℕ
threads_up site ss r = started r >> looped site ss

abbrev up : Site → List Signal → ℤ → Run Program ℕ
up site ss (pos zero) = on_task (on_hal start_hal) >>= threads_up site ss
up site ss (pos (suc n)) = ended site 1
up site ss (negsuc n) = ended site 1

-- `main`, with the signals that come while it is in its loop.
unfoldable pub main : Site → ℤ → List Signal → Run Program ℕ
unfolding emctask_quit emctask_shutdown emctask_startup hal_start_threads hal_stop_threads
main site printer ss = emctask_startup site printer >>= up site ss
