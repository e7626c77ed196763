-- ===== src/Outside/Emits.antt =====
-- The calls of actions that may change the flags of a session too.
use price_scout.Base.{Bool, true, false, ◌≡◌, if◌then◌else◌}
use price_scout.Base.Effects.{Result, ok, err, Failure}
use price_scout.Outside.{Outside, Call}
use price_scout.Outside.Act.{St, Act, catch, finally, ◌>>=◌}
use price_scout.Outside.Makes.{Grows, Grows-trans, Grows-eq, Makes}

pub record Emits (P : Call → Type 0) {o : Outside} {A : Type 0} (m : Act o A) : Type 0 where
  pub at : (s : St o) → Grows P s.calls (m s).1.calls

module _ {P : Call → Type 0} {o : Outside} {A : Type 0} where
  pub Emits-Makes : {m : Act o A} → Makes P m → Emits P m
  Emits-Makes h = record { at = h.at }

  pub Emits-still : (m : Act o A) → ((s : St o) → (m s).1.calls ≡ s.calls) → Emits P m
  Emits-still m h = record { at = λ s. Grows-eq (h s) }

  pub Emits-if : (b : Bool) (m n : Act o A) → Emits P m → Emits P n → Emits P (if b then m else n)
  Emits-if true m n km kn = km
  Emits-if false m n km kn = kn

  pub Emits-catch :
      (m : Act o A) (handler : Failure → Act o A)
      → Emits P m
      → ((e : Failure) → Emits P (handler e))
      → Emits P (catch m handler)
  Emits-catch m handler km kh = record { at = λ s. after s (m s) (km.at s) }
    where
      after :
          (s : St o) (x : Result A × St o)
          → Grows P s.calls x.1.calls
          → Grows P s.calls (catch (λ _. x) handler s).1.calls
      after s (ok a, t) h = h
      after s (err e, t) h = Grows-trans h ((kh e).at t)

  pub Emits-finally :
      (m : Act o A) (cleanup : St o → St o)
      → Emits P m
      → ((s : St o) → Grows P s.calls (cleanup s).calls)
      → Emits P (finally m cleanup)
  Emits-finally m cleanup km kc = record { at = λ s. Grows-trans (km.at s) (kc (m s).1) }

module _ {P : Call → Type 0} {o : Outside} {A B : Type 0} where
  pub Emits-bind :
      (m : Act o A) (f : A → Act o B) → Emits P m → ((a : A) → Emits P (f a)) → Emits P (m >>= f)
  Emits-bind m f km kf = record { at = λ s. after s (m s) (km.at s) }
    where
      after :
          (s : St o) (x : Result A × St o)
          → Grows P s.calls x.1.calls
          → Grows P s.calls (((λ _. x) >>= f) s).1.calls
      after s (ok a, t) h = Grows-trans h ((kf a).at t)
      after s (err e, t) h = h
