-- ===== src/Common/Codes.antt =====
-- Results as the ints that the program returns.
use Prim.Native.Nat.{ℕ}
use real_time_system.Common.Returns.{
  Errno, einval, enomem, eperm, ealready, eacces, enospc, os, Result, ok, err,
}
use real_time_system.Common.Int.{ℤ, pos, negsuc, ◌-ℤ◌}

-- The negated errno of Linux.
abbrev pub minus : Errno → ℤ
minus eperm = negsuc 0
minus enomem = negsuc 11
minus eacces = negsuc 12
minus einval = negsuc 21
minus enospc = negsuc 27
minus ealready = negsuc 113
minus (os n) = pos 0 -ℤ pos n

abbrev pub as_int : Result ℕ → ℤ
as_int (ok n) = pos n
as_int (err e) = minus e
