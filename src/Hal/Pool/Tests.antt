-- ===== src/Hal/Pool/Tests.antt =====
-- hal/hal_lib.c: the two allocators on small inputs.
use real_time_system.Common.{[], ◌∷◌, arith}
use real_time_system.Hal.Data.{hal_size}
use real_time_system.Hal.Fixture.{active_data}
use real_time_system.Hal.Pool.Blocks.{IsPool, up, dn, blocks, All, Lies, AllApart, blocks-AllApart}

active-IsPool : IsPool 400 active_data
active-IsPool = record {
  behind_header = omega arith;
  ordered = omega arith;
  in_block = omega arith;
}

blocks-AllApart_example :
    All (Lies 400 hal_size) (blocks (up 24 ∷ dn 100 ∷ []) active_data)
    × AllApart (blocks (up 24 ∷ dn 100 ∷ []) active_data)
blocks-AllApart_example = blocks-AllApart 400 (up 24 ∷ dn 100 ∷ []) active_data active-IsPool
