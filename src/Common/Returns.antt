-- ===== src/Common/Returns.antt =====
-- What a C function returns: a value, or a negated errno.
use Prim.Native.Nat.{ℕ}
use mathlib.Core.Path.{◌≡◌, refl}
use mathlib.Core.Logic.{◌⊎◌, inl, inr}

-- The errno values that the code names; `os e` is one that the operating system reported.
pub data Errno : Type 0 where
  einval enomem eperm ealready eacces enospc : Errno
  os : ℕ → Errno

-- `ok a` is a return value `>= 0`, `err e` the return value `-e`.
pub data Result {ℓ} (A : Type ℓ) : Type ℓ where
  ok : A → Result A
  err : Errno → Result A

-- The outcome of a system call: its value, or -1 with errno.
pub data OsResult {ℓ} (A : Type ℓ) : Type ℓ where
  returned : A → OsResult A
  failed : ℕ → OsResult A

pub OsResult-cases {ℓ} :
    {A : Type ℓ} (r : OsResult A) → ((e : ℕ) × (r ≡ failed e)) ⊎ ((a : A) × (r ≡ returned a))
OsResult-cases (failed e) = inl (e, refl)
OsResult-cases (returned a) = inr (a, refl)

-- A run that comes back with a value, that spins for ever, or whose behaviour C leaves undefined.
pub data Outcome {ℓ} (A : Type ℓ) : Type ℓ where
  done : A → Outcome A
  hang : Outcome A
  fault : Outcome A
