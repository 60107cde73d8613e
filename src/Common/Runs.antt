-- ===== src/Common/Runs.antt =====
-- A call over a state: it comes back with a value and the new state, spins for ever, or is undefined.
use real_time_system.Common.{◌≡◌, refl}
use real_time_system.Common.Returns.{Outcome, done, hang, fault, Result, ok, err}

abbrev pub Run : Type 0 → Type 0 → Type 0
Run S A = S → Outcome (A × S)

abbrev pub pure : {S A : Type 0} → A → Run S A
pure a s = done (a, s)

-- The rest of a call after an outcome of its first part.
abbrev pub after : {S A B : Type 0} → (A → Run S B) → Outcome (A × S) → Outcome (B × S)
after f (done (a, s)) = f a s
after f hang = hang
after f fault = fault

infixl 5 ◌>>=◌ ◌>>◌
abbrev pub ◌>>=◌ : {S A B : Type 0} → Run S A → (A → Run S B) → Run S B
◌>>=◌ m f s = after f (m s)

abbrev pub ◌>>◌ : {S A B : Type 0} → Run S A → Run S B → Run S B
m >> k = m >>= λ _. k

-- `if (r < 0) return e;`
abbrev pub or_return : {S A B : Type 0} → Result A → B → (A → Run S B) → Run S B
or_return (ok a) e k = k a
or_return (err x) e k = pure e

-- A call on a part of the state.
abbrev pub put_back : {S T A : Type 0} → (S → T → S) → S → Outcome (A × T) → Outcome (A × S)
put_back put s (done (a, t)) = done (a, put s t)
put_back put s hang = hang
put_back put s fault = fault

abbrev pub zoom : {S T A : Type 0} → (S → T) → (S → T → S) → Run T A → Run S A
zoom get put f s = put_back put s (f (get s))

-- A change of the state.
abbrev pub change : {S : Type 0} → (S → S) → Run S (Unit {0})
change f s = done (tt, f s)

-- A call whose arguments are read from the state.
abbrev pub with_state : {S A : Type 0} → (S → Run S A) → Run S A
with_state f s = f s s

-- What holds after a call that comes back.
abbrev pub Post : {S A : Type 0} → (A → S → Type 0) → Outcome (A × S) → Type 0
Post P (done (a, s)) = P a s
Post P hang = Unit
Post P fault = Unit

pub after-Post :
    {S A B : Type 0} (Q : A → S → Type 0) (P : B → S → Type 0) (f : A → Run S B)
    (o : Outcome (A × S))
    → Post Q o
    → ((a : A) (s : S) → Q a s → Post P (f a s))
    → Post P (after f o)
after-Post Q P f (done (a, s)) q k = k a s q
after-Post Q P f hang q k = tt
after-Post Q P f fault q k = tt

pub zoom-Post :
    {S T A : Type 0} (P : S → Type 0) (put : S → T → S) (s : S) (o : Outcome (A × T))
    → ((t : T) → P (put s t))
    → Post (λ _. P) (put_back put s o)
zoom-Post P put s (done (a, t)) k = k t
zoom-Post P put s hang k = tt
zoom-Post P put s fault k = tt

pub Post-any : {S A : Type 0} (o : Outcome (A × S)) → Post (λ _ _. Unit {0}) o
Post-any (done (a, s)) = tt
Post-any hang = tt
Post-any fault = tt

pub Post-weaken :
    {S A : Type 0} (Q P : A → S → Type 0) (o : Outcome (A × S))
    → Post Q o
    → ((a : A) (s : S) → Q a s → P a s)
    → Post P o
Post-weaken Q P (done (a, s)) q k = k a s q
Post-weaken Q P hang q k = tt
Post-weaken Q P fault q k = tt

pub Post-done :
    {S A : Type 0} (P : A → S → Type 0) (o : Outcome (A × S))
    → ((a : A) (s : S) → o ≡ done (a, s) → P a s)
    → Post P o
Post-done P (done (a, s)) k = k a s refl
Post-done P hang k = tt
Post-done P fault k = tt

pub Post-and :
    {S A : Type 0} (P Q : A → S → Type 0) (o : Outcome (A × S))
    → Post P o
    → Post Q o
    → Post (λ a s. P a s × Q a s) o
Post-and P Q (done (a, s)) p q = (p, q)
Post-and P Q hang p q = tt
Post-and P Q fault p q = tt

-- A call that comes back has come back from its first part.
pub after-done :
    {S A B : Type 0} (f : A → Run S B) (o : Outcome (A × S)) (b : B) (t : S)
    → after f o ≡ done (b, t)
    → (a : A) × (s : S) × (o ≡ done (a, s)) × (f a s ≡ done (b, t))
after-done f (done (a, s)) b t e = (a, s, refl, e)
after-done f hang b t e = absurd (cc e)
after-done f fault b t e = absurd (cc e)
