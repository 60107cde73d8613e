-- ===== src/Hal/Pool.antt =====
-- hal/hal_lib.c: `shmalloc_up` and `shmalloc_dn`, which cut blocks off the two ends of the free part
-- of HAL shared memory. Sizes are sizeof values, so they are natural numbers.
mod Tests
pub mod Blocks
use real_time_system.Common.{
  ℕ, ◌+◌, ◌-◌, ◌*◌, ◌/◌, ◌≡◌, Bool, true, false, Option, none, some, ltb, leb, ◌==◌, if◌then◌else◌,
}
use real_time_system.Hal.Data.{HalData}

-- `(x + (a - 1)) & ~(a - 1)` and `x & ~(a - 1)`, at a power of two.
abbrev pub round_up : ℕ → ℕ → ℕ
round_up a x = (x + (a - 1)) / a * a

abbrev pub round_down : ℕ → ℕ → ℕ
round_down a x = x / a * a

abbrev align_up : ℕ → ℕ → ℕ
align_up size x =
    if leb 16 size
    then round_up 16 x
    else if leb 8 size
    then round_up 8 x
    else if leb 4 size
    then round_up 4 x
    else if size == 2
    then round_up 2 x
    else x

abbrev align_down : ℕ → ℕ → ℕ
align_down size x =
    if leb 16 size
    then round_down 16 x
    else if leb 8 size
    then round_down 8 x
    else if leb 4 size
    then round_down 4 x
    else if size == 2
    then round_down 2 x
    else x

-- The test is `shmem_top - tmp_bot < size` in signed arithmetic, with the difference taken over.
unfoldable pub shmalloc_up : ℕ → HalData → Option ℕ × HalData
shmalloc_up size d =
    let tmp_bot = align_up size d.shmem_bot in
    if ltb d.shmem_top (tmp_bot + size) then (none, d) else (
      some tmp_bot,
      record d { shmem_bot = tmp_bot + size; shmem_avail = d.shmem_top - (tmp_bot + size) },
    )

-- Where `shmem_top - size` is negative, so is the aligned value, which lies below `shmem_bot`.
unfoldable pub shmalloc_dn : ℕ → HalData → Option ℕ × HalData
shmalloc_dn size d =
    let tmp_top = align_down size (d.shmem_top - size) in
    if ltb d.shmem_top size
    then (none, d)
    else if ltb tmp_top d.shmem_bot
    then (none, d)
    else (some tmp_top, record d { shmem_top = tmp_top; shmem_avail = tmp_top - d.shmem_bot })
