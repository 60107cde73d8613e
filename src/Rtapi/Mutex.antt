-- ===== src/Rtapi/Mutex.antt =====
-- rtapi/rtapi_bitops.h and rtapi/rtapi_mutex.h: bits of an array of unsigned longs, and a mutex that
-- is bit 0 of one. Each test-and-set is one atomic step.
mod Tests
pub mod Threads
use Prim.Native.Nat.{bit_and, bit_or}
use real_time_system.Common.{
  ℕ, ◌-◌, ◌/◌, ◌%◌, ◌^◌, ◌≡◌, refl, ◌⊎◌, inl, inr, Bool, true, false, not, List, [], ◌∷◌, arith,
  ◌==◌, get_or, modify,
}

-- RTAPI_LONG_BIT where an unsigned long has 64 bits
abbrev pub long_bit : ℕ
long_bit = 64

-- ~(1lu << boff)
abbrev without : ℕ → ℕ
without boff = 2 ^ long_bit - 1 - 2 ^ boff

abbrev has_bit : ℕ → ℕ → Bool
has_bit word boff = not (bit_and word (2 ^ boff) == 0)

pub set_bit : ℕ → List ℕ → List ℕ
set_bit nr addr = modify addr (nr / long_bit) (λ w. bit_or w (2 ^ (nr % long_bit)))

pub test_bit : ℕ → List ℕ → Bool
test_bit nr addr = has_bit (get_or addr (nr / long_bit) 0) (nr % long_bit)

pub clear_bit : ℕ → List ℕ → List ℕ
clear_bit nr addr = modify addr (nr / long_bit) (λ w. bit_and w (without (nr % long_bit)))

-- The bit's old value, and the array with the bit set.
pub test_and_set_bit : ℕ → List ℕ → Bool × List ℕ
unfolding test_bit set_bit
test_and_set_bit nr addr = (test_bit nr addr, set_bit nr addr)

pub test_and_clear_bit : ℕ → List ℕ → Bool × List ℕ
unfolding test_bit clear_bit
test_and_clear_bit nr addr = (test_bit nr addr, clear_bit nr addr)

-- The first component is true if the mutex was taken already.
pub rtapi_mutex_try : ℕ → Bool × ℕ
unfolding test_and_set_bit
rtapi_mutex_try mutex =
    let (old, words) = test_and_set_bit 0 (mutex ∷ []) in (old, get_or words 0 0)

pub rtapi_mutex_give : ℕ → ℕ
unfolding test_and_clear_bit
rtapi_mutex_give mutex = get_or (test_and_clear_bit 0 (mutex ∷ [])).1 0 0

pub try_free : rtapi_mutex_try 0 ≡ (false, 1)
unfolding rtapi_mutex_try
try_free = refl

pub try_taken : rtapi_mutex_try 1 ≡ (true, 1)
unfolding rtapi_mutex_try
try_taken = refl

pub give_taken : rtapi_mutex_give 1 ≡ 0
unfolding rtapi_mutex_give
give_taken = refl
