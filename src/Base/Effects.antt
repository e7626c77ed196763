-- ===== src/Base/Effects.antt =====
-- The worker's errors, and asynchronous code that may throw: a state monad whose state survives a
-- throw, so that a `catch` or `finally` block sees what was done before it.
use price_scout.Base.Text.{Text, codes}
use Prim.Native.String.{String}
use mathlib.Core.Path.{◌≡◌, refl}
use mathlib.Core.Logic.{◌⊎◌, inl, inr}

-- `ValidationError.reason`
pub data Reason : Type 0 where
  identity_drift ambiguous_value : Reason

-- `SafetyError`, `StaleActionError`, `ValidationError` and any other `Error`, with their messages.
pub data Failure : Type 0 where
  safety : Text → Failure
  stale : Text → Failure
  validation : Reason → Text → Failure
  plain : Text → Failure

-- A literal message.
unfoldable pub msg : String → Text
msg s = codes s

pub data Result (A : Type 0) : Type 0 where
  ok : A → Result A
  err : Failure → Result A

-- `if (condition) throw error;`
abbrev pub Check : Type 0
Check = Result (Unit {0})

module _ {A B : Type 0} where
  infixl 5 ◌>>=◌
  abbrev pub ◌>>=◌ : Result A → (A → Result B) → Result B
  ok a >>= f = f a
  err e >>= f = err e

module _ {B : Type 0} where
  infixl 5 ◌>>◌
  abbrev pub ◌>>◌ : Check → Result B → Result B
  m >> k = m >>= λ _. k

module _ {A : Type 0} where
  pub Result-cases : (r : Result A) → ((a : A) × (r ≡ ok a)) ⊎ ((e : Failure) × (r ≡ err e))
  Result-cases (ok a) = inl (a, refl)
  Result-cases (err e) = inr (e, refl)

  pub ok-injective : {a b : A} → ok a ≡ ok b → a ≡ b
  ok-injective e = cc

module _ {A B : Type 0} where
  -- What a bind that gave a value went through.
  pub bind-eq-ok :
      (m : Result A) (f : A → Result B) (b : B)
      → (m >>= f) ≡ ok b
      → (a : A) × (m ≡ ok a) × (f a ≡ ok b)
  bind-eq-ok (ok a) f b h = (a, refl, h)
  bind-eq-ok (err e) f b h = absurd cc
