-- ===== src/ExampleTask/Guard/Tests.antt =====
-- ExampleTask/operate.cpp: `ExampleTaskGuard` on small inputs.
use real_time_system.Common.{◌≡◌, refl, true, false, some, [], ◌∷◌, done}
use real_time_system.Common.Int.{pos}
use real_time_system.Common.Runs.{after, Post}
use real_time_system.Hal.Data.{HalData}
use real_time_system.Hal.Fixture.{active_data}
use real_time_system.ExampleTask.Setup.{put_hal_data}
use real_time_system.ExampleTask.Fixture.{site, fresh}
use real_time_system.ExampleTask.Guard.{Guard, start, stop, shutdown}
use real_time_system.ExampleTask.Guard.Calls.{
  inits, starts, stops, shuts_down, commands, IsOwned, commands-IsOwned, stop-start, shutdown_twice,
}

abbrev unused : Guard
unused = record { app = fresh; owns = false; started = false }

-- Over a HAL that is ACTIVE.
abbrev owning : Guard
owning = record { app = put_hal_data fresh (some active_data); owns = true; started = false }

shutdown_twice_example : after (λ _. shutdown site) (shutdown site owning) ≡ shutdown site owning
shutdown_twice_example = shutdown_twice site owning

stop-start_example :
    (g : Guard) × (d : HalData) × (start owning ≡ done (pos 0, g))
    × (g.app.process.hal ≡ some d)
    × (d.threads_running ≡ 1)
    × (stop g ≡ done (pos 0, owning))
stop-start_example = stop-start owning active_data refl refl refl refl refl refl

commands-IsOwned_example :
    Post (λ _. IsOwned) (commands (inits site ∷ starts ∷ stops ∷ shuts_down site ∷ []) unused)
commands-IsOwned_example =
    commands-IsOwned (inits site ∷ starts ∷ stops ∷ shuts_down site ∷ []) unused (λ e. e)
