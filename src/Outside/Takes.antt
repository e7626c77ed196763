-- ===== src/Outside/Takes.antt =====
-- Actions that take states with one property to states with another, whether they return or throw.
use price_scout.Base.Effects.{Result, ok, err, Failure}
use price_scout.Outside.{Outside}
use price_scout.Outside.Act.{St, Act, catch, ◌>>=◌}

pub record Takes {o : Outside} {A : Type 0} (Pre Post : St o → Type 0) (m : Act o A) : Type 0 where
  pub at : (s : St o) → Pre s → Post (m s).1

module _ {o : Outside} {A : Type 0} {Pre Mid Post : St o → Type 0} where
  pub Takes-weaken :
      {m : Act o A} → Takes Pre Mid m → ((s : St o) → Mid s → Post s) → Takes Pre Post m
  Takes-weaken km w = record { at = λ s h. w _ (km.at s h) }

  pub Takes-catch :
      (m : Act o A) (handler : Failure → Act o A)
      → Takes Pre Mid m
      → ((s : St o) → Mid s → Post s)
      → ((e : Failure) → Takes Mid Post (handler e))
      → Takes Pre Post (catch m handler)
  Takes-catch m handler km w kh = record { at = λ s h. after (m s) (km.at s h) }
    where
      after : (x : Result A × St o) → Mid x.1 → Post (catch (λ (s : St o). x) handler x.1).1
      after (ok a, t) h = w t h
      after (err e, t) h = (kh e).at t h

module _ {o : Outside} {A B : Type 0} {Pre Mid Post : St o → Type 0} where
  -- A throw of the first action ends in the middle.
  pub Takes-bind :
      (m : Act o A) (f : A → Act o B)
      → Takes Pre Mid m
      → ((s : St o) → Mid s → Post s)
      → ((a : A) → Takes Mid Post (f a))
      → Takes Pre Post (m >>= f)
  Takes-bind m f km w kf = record { at = λ s h. after (m s) (km.at s h) }
    where
      after : (x : Result A × St o) → Mid x.1 → Post (((λ (s : St o). x) >>= f) x.1).1
      after (ok a, t) h = (kf a).at t h
      after (err e, t) h = w t h
