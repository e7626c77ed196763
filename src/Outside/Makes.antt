-- ===== src/Outside/Makes.antt =====
-- The calls that an action makes, whether it returns or throws: each of them satisfies a predicate,
-- and they come in front of the calls made before. `Makes` adds that the action leaves the flags of
-- the browser sessions as they are, which all actions do but those that open or close one.
use price_scout.Base.{
  Bool, true, false, ◌≡◌, refl, sym, List, [], ◌∷◌, if◌then◌else◌, Option, none, some,
}
use price_scout.Base.Effects.{Result, ok, err, Failure}
use mathlib.Core.Path.{subst}
use price_scout.Outside.{Outside, Call}
use price_scout.Outside.Keeps.{
  Keeps, Keeps-pure, Keeps-throw, Keeps-lift, Keeps-call, Keeps-catch, Keeps-bind_given, both-Keeps,
}
use price_scout.Outside.Act.{RunFlags, St, Act, call, pure, throw, lift, catch, both, resume, ◌>>=◌}

-- The flags of the two sessions, and whether the job has one.
abbrev pub held : {o : Outside} → St o → RunFlags × RunFlags × Bool
held s = (s.main_run, s.validator_run, s.has_run)

module _ (P : Call → Type 0) where
  pub data Grows (l : List Call) : List Call → Type 0 where
    same : Grows l l
    more : {c : Call} {m : List Call} → P c → Grows l m → Grows l (c ∷ m)

  pub record Makes {o : Outside} {A : Type 0} (m : Act o A) : Type 0 where
    pub at : (s : St o) → Grows s.calls (m s).1.calls
    pub still : Keeps held m

module _ {P : Call → Type 0} where
  pub Grows-trans : {k l m : List Call} → Grows P k l → Grows P l m → Grows P k m
  Grows-trans g same = g
  Grows-trans g (more p h) = more p (Grows-trans g h)

  pub Grows-eq : {l m : List Call} → m ≡ l → Grows P l m
  Grows-eq {l = l} e = subst (Grows P l) (sym e) same

module _ {P : Call → Type 0} {o : Outside} {A : Type 0} where
  pub Makes-still :
      (m : Act o A) → ((s : St o) → ((m s).1.calls ≡ s.calls) × (held (m s).1 ≡ held s)) → Makes P m
  Makes-still m h = record { at = λ s. Grows-eq (h s).0; still = record { at = λ s. (h s).1 } }

  pub Makes-pure : (a : A) → Makes P {o = o} (pure a)
  Makes-pure a = record { at = λ s. same; still = Keeps-pure a }

  pub Makes-throw : (e : Failure) → Makes P {o = o} (throw {A = A} e)
  Makes-throw e = record { at = λ s. same; still = Keeps-throw e }

  pub Makes-lift : (r : Result A) → Makes P {o = o} (lift r)
  Makes-lift r = record { at = λ s. same; still = Keeps-lift r }

  pub Makes-if : (b : Bool) (m n : Act o A) → Makes P m → Makes P n → Makes P (if b then m else n)
  Makes-if true m n km kn = km
  Makes-if false m n km kn = kn

  pub Makes-catch :
      (m : Act o A) (handler : Failure → Act o A)
      → Makes P m
      → ((e : Failure) → Makes P (handler e))
      → Makes P (catch m handler)
  Makes-catch m handler km kh = record {
    at = λ s. after s (m s) (km.at s);
    still = Keeps-catch m handler km.still (λ e. (kh e).still);
  }
    where
      after :
          (s : St o) (x : Result A × St o)
          → Grows P s.calls x.1.calls
          → Grows P s.calls (catch (λ _. x) handler s).1.calls
      after s (ok a, t) h = h
      after s (err e, t) h = Grows-trans h ((kh e).at t)

module _ {P : Call → Type 0} {o : Outside} where
  pub Makes-call : (c : Call) → P c → Makes P {o = o} (call c)
  unfolding call
  Makes-call c p = record { at = λ s. more p same; still = Keeps-call c (λ s w. refl) }

module _ {P : Call → Type 0} {o : Outside} {A B : Type 0} where
  -- The rest of a bind may use what its first action gave.
  pub Makes-bind_given :
      (m : Act o A) (f : A → Act o B)
      → Makes P m
      → ((a : A) (s : St o) → (m s).0 ≡ ok a → Makes P (f a))
      → Makes P (m >>= f)
  Makes-bind_given m f km kf = record {
    at = λ s. after s (m s) (km.at s) (λ a e. kf a s e);
    still = Keeps-bind_given m f km.still (λ a s e. (kf a s e).still);
  }
    where
      after :
          (s : St o) (x : Result A × St o)
          → Grows P s.calls x.1.calls
          → ((a : A) → x.0 ≡ ok a → Makes P (f a))
          → Grows P s.calls (((λ _. x) >>= f) s).1.calls
      after s (ok a, t) h k = Grows-trans h ((k a refl).at t)
      after s (err e, t) h k = h

  pub Makes-bind :
      (m : Act o A) (f : A → Act o B) → Makes P m → ((a : A) → Makes P (f a)) → Makes P (m >>= f)
  Makes-bind m f km kf = Makes-bind_given m f km (λ a s e. kf a)

module _ {P : Call → Type 0} {o : Outside} {A B : Type 0} where
  pub Makes-option :
      (x : Option B) (f : B → Act o A) (n : Act o A)
      → ((b : B) → Makes P (f b))
      → Makes P n
      → Makes P (elim x [ some b ↦ f b | none ↦ n ])
  Makes-option none f n kf kn = kn
  Makes-option (some b) f n kf kn = kf b

  pub Makes-list :
      (x : List B) (f : B → List B → Act o A) (n : Act o A)
      → ((b : B) (l : List B) → Makes P (f b l))
      → Makes P n
      → Makes P (elim x [ [] ↦ n | (b ∷ l) ↦ f b l ])
  Makes-list [] f n kf kn = kn
  Makes-list (b ∷ l) f n kf kn = kf b l

module _ {P : Call → Type 0} {o : Outside} where
  pub both-Makes : (m k : Act o (Unit {0})) → Makes P m → Makes P k → Makes P (both m k)
  both-Makes m k km kk = record {
    at = λ s. after s (m s) (km.at s);
    still = both-Keeps m k km.still kk.still;
  }
    where
      rest :
          (r : Result (Unit {0})) (x : Result (Unit {0}) × St o) (s : St o)
          → Grows P s.calls x.1.calls
          → Grows P s.calls (resume (λ _ v. (x.0, v)) r x.1).1.calls
      rest (ok u) x s g = g
      rest (err e) x s g = g

      after :
          (s : St o) (x : Result (Unit {0}) × St o)
          → Grows P s.calls x.1.calls
          → Grows P s.calls (both (λ _. x) k s).1.calls
      after s x g = rest x.0 (k x.1) s (Grows-trans g (kk.at x.1))

pub ruleset makes_rules =
    (Makes-pure, Makes-throw, Makes-lift, Makes-if, Makes-catch, Makes-bind, Makes-call)
