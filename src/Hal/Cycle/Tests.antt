-- ===== src/Hal/Cycle/Tests.antt =====
-- hal/hal_lib.c: a pass of `thread_task` on a small input.
use real_time_system.Common.{ℕ, ◌*◌, ◌≡◌, map, arith}
use real_time_system.Common.Int.{ℤ, pos}
use real_time_system.Hal.Fixture.{mounted_data, thread_t}
use real_time_system.Hal.Cycle.{thread_pass, call_of}
use real_time_system.Hal.Cycle.Order.{pass-calls}

-- 100 ns from reading to reading
abbrev clock : ℕ → ℤ
clock n = pos (n * 100)

pass-calls_example :
    (thread_pass clock mounted_data thread_t).calls ≡ map (call_of 1_000_000) thread_t.funct_list
pass-calls_example = pass-calls clock mounted_data thread_t (omega arith, tt)
