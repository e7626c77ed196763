-- ===== src/Outside/Returns.antt =====
-- What holds of the value that an action returns, if it returns one.
use price_scout.Base.{Bool, true, false, ◌≡◌, refl, if◌then◌else◌}
use price_scout.Base.Effects.{Result, ok, err, Failure, ok-injective}
use mathlib.Core.Path.{subst}
use price_scout.Outside.{Outside}
use price_scout.Outside.Act.{St, Act, pure, throw, catch, finally, resume, handled, ◌>>=◌}

pub record Returns {o : Outside} {A : Type 0} (Q : A → Type 0) (m : Act o A) : Type 0 where
  pub at : (s : St o) (a : A) → (m s).0 ≡ ok a → Q a

module _ {o : Outside} {A : Type 0} {Q : A → Type 0} where
  pub Returns-pure : (a : A) → Q a → Returns {o = o} Q (pure a)
  Returns-pure a q = record { at = λ s b e. subst Q (ok-injective e) q }

  pub Returns-throw : (e : Failure) → Returns {o = o} Q (throw e)
  Returns-throw e = record { at = λ s b h. absurd cc }

  pub Returns-if :
      (b : Bool) (m n : Act o A) → Returns Q m → Returns Q n → Returns Q (if b then m else n)
  Returns-if true m n km kn = km
  Returns-if false m n km kn = kn

  pub Returns-catch :
      (m : Act o A) (handler : Failure → Act o A)
      → Returns Q m
      → ((e : Failure) → Returns Q (handler e))
      → Returns Q (catch m handler)
  Returns-catch m handler km kh = record { at = λ s b h. after s (m s) (km.at s) b h }
    where
      after :
          (s : St o) (x : Result A × St o)
          → ((a : A) → x.0 ≡ ok a → Q a)
          → (b : A) → (handled handler x.0 x.1).0 ≡ ok b
          → Q b
      after s (ok a, t) k b h = k b h
      after s (err e, t) k b h = (kh e).at t b h

  pub Returns-finally :
      (m : Act o A) (cleanup : St o → St o) → Returns Q m → Returns Q (finally m cleanup)
  Returns-finally m cleanup km = record { at = km.at }

module _ {o : Outside} {A B : Type 0} {Q : B → Type 0} where
  -- The rest of a bind may use that its first action gave the value.
  pub Returns-bind :
      (m : Act o A) (f : A → Act o B)
      → ((a : A) (s : St o) → (m s).0 ≡ ok a → Returns Q (f a))
      → Returns Q (m >>= f)
  Returns-bind m f kf = record { at = λ s b h. after s (m s) (λ a e. kf a s e) b h }
    where
      after :
          (s : St o) (x : Result A × St o)
          → ((a : A) → x.0 ≡ ok a → Returns Q (f a))
          → (b : B) → (resume f x.0 x.1).0 ≡ ok b
          → Q b
      after s (ok a, t) k b h = (k a refl).at t b h
      after s (err e, t) k b h = absurd cc

  -- The last action of a chain decides.
  pub Returns-after :
      (m : Act o A) (f : A → Act o B) → ((a : A) → Returns Q (f a)) → Returns Q (m >>= f)
  Returns-after m f kf = Returns-bind m f (λ a s e. kf a)
