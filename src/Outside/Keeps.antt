-- ===== src/Outside/Keeps.antt =====
-- Actions that leave a view of the state as it is, whether they return or throw, and inversion of
-- an action that returned.
use price_scout.Base.{Bool, true, false, ◌≡◌, refl, ◌∙◌, ◌∷◌, if◌then◌else◌}
use price_scout.Base.Effects.{Result, ok, err, Failure}
use price_scout.Outside.{Outside, Call}
use price_scout.Outside.Act.{St, Act, call, pure, throw, lift, catch, resume, handled, both, ◌>>=◌}

pub record Keeps {o : Outside} {A X : Type 0} (view : St o → X) (m : Act o A) : Type 0 where
  pub at : (s : St o) → view (m s).1 ≡ view s

module _ {o : Outside} {X : Type 0} {view : St o → X} where
  pub Keeps-call :
      (c : Call)
      → ((s : St o) (w : o.World) → view (record s { world = w; calls = c ∷ s.calls }) ≡ view s)
      → Keeps view (call c)
  unfolding call
  Keeps-call c h = record { at = λ s. h s (o.respond c s.world).1 }

module _ {o : Outside} {A X : Type 0} {view : St o → X} where
  pub Keeps-pure : (a : A) → Keeps view (pure a)
  Keeps-pure a = record { at = λ s. refl }

  pub Keeps-throw : (e : Failure) → Keeps view (throw {A = A} e)
  Keeps-throw e = record { at = λ s. refl }

  pub Keeps-lift : (r : Result A) → Keeps view (lift r)
  Keeps-lift r = record { at = λ s. refl }

  pub Keeps-if :
      (b : Bool) (m n : Act o A) → Keeps view m → Keeps view n → Keeps view (if b then m else n)
  Keeps-if true m n km kn = km
  Keeps-if false m n km kn = kn

  pub Keeps-catch :
      (m : Act o A) (handler : Failure → Act o A)
      → Keeps view m
      → ((e : Failure) → Keeps view (handler e))
      → Keeps view (catch m handler)
  Keeps-catch m handler km kh = record { at = λ s. after s (m s) (km.at s) }
    where
      after :
          (s : St o) (x : Result A × St o)
          → view x.1 ≡ view s
          → view (catch (λ _. x) handler s).1 ≡ view s
      after s (ok a, t) h = h
      after s (err e, t) h = (kh e).at t ∙ h

module _ {o : Outside} {A B X : Type 0} {view : St o → X} where
  -- The rest of a bind may use what its first action gave.
  pub Keeps-bind_given :
      (m : Act o A) (f : A → Act o B)
      → Keeps view m
      → ((a : A) (s : St o) → (m s).0 ≡ ok a → Keeps view (f a))
      → Keeps view (m >>= f)
  Keeps-bind_given m f km kf = record { at = λ s. after s (m s) (km.at s) (λ a e. kf a s e) }
    where
      after :
          (s : St o) (x : Result A × St o)
          → view x.1 ≡ view s
          → ((a : A) → x.0 ≡ ok a → Keeps view (f a))
          → view (((λ _. x) >>= f) s).1 ≡ view s
      after s (ok a, t) h k = (k a refl).at t ∙ h
      after s (err e, t) h k = h

  pub Keeps-bind :
      (m : Act o A) (f : A → Act o B)
      → Keeps view m
      → ((a : A) → Keeps view (f a))
      → Keeps view (m >>= f)
  Keeps-bind m f km kf = Keeps-bind_given m f km (λ a s e. kf a)

module _ {o : Outside} {X : Type 0} {view : St o → X} where
  pub both-Keeps : (m k : Act o (Unit {0})) → Keeps view m → Keeps view k → Keeps view (both m k)
  both-Keeps m k km kk = record { at = λ s. after s (m s) (km.at s) }
    where
      rest :
          (r : Result (Unit {0})) (x : Result (Unit {0}) × St o) (s : St o)
          → view x.1 ≡ view s
          → view (resume (λ _ v. (x.0, v)) r x.1).1 ≡ view s
      rest (ok u) x s h = h
      rest (err e) x s h = h

      after :
          (s : St o) (x : Result (Unit {0}) × St o)
          → view x.1 ≡ view s
          → view (both (λ _. x) k s).1 ≡ view s
      after s x h = rest x.0 (k x.1) s (kk.at x.1 ∙ h)

module _ {o : Outside} {A B : Type 0} (f : A → Act o B) where
  resume-eq-ok :
      (x : Result A × St o) (t : St o) (b : B)
      → resume f x.0 x.1 ≡ (ok b, t)
      → (a : A) × (u : St o) × (x ≡ (ok a, u)) × (f a u ≡ (ok b, t))
  resume-eq-ok (ok a, u) t b h = (a, u, refl, h)
  resume-eq-ok (err e, u) t b h = cc

  -- What a bind that returned went through.
  pub >>=-eq-ok :
      (m : Act o A) (s t : St o) (b : B)
      → (m >>= f) s ≡ (ok b, t)
      → (a : A) × (u : St o) × (m s ≡ (ok a, u)) × (f a u ≡ (ok b, t))
  >>=-eq-ok m s t b h = resume-eq-ok (m s) t b h

module _ {o : Outside} {A B : Type 0} (P : Result B → St o → Type 0) (f : A → Act o B) where
  resume_post :
      (x : Result A × St o)
      → ((e : Failure) → x.0 ≡ err e → P (err e) x.1)
      → ((a : A) → x.0 ≡ ok a → P (f a x.1).0 (f a x.1).1)
      → P (resume f x.0 x.1).0 (resume f x.0 x.1).1
  resume_post (ok a, u) on_err on_ok = on_ok a refl
  resume_post (err e, u) on_err on_ok = on_err e refl

  -- A bind is its first action alone, if that throws, and else the rest from where that ended.
  pub >>=_post :
      (m : Act o A) (s : St o)
      → ((e : Failure) → (m s).0 ≡ err e → P (err e) (m s).1)
      → ((a : A) → (m s).0 ≡ ok a → P (f a (m s).1).0 (f a (m s).1).1)
      → P ((m >>= f) s).0 ((m >>= f) s).1
  >>=_post m s on_err on_ok = resume_post (m s) on_err on_ok

module _ {o : Outside} {A : Type 0} (P : Result A → St o → Type 0)
    (handler : Failure → Act o A) where
  handled_post :
      (x : Result A × St o)
      → ((a : A) → x.0 ≡ ok a → P (ok a) x.1)
      → ((e : Failure) → x.0 ≡ err e → P (handler e x.1).0 (handler e x.1).1)
      → P (handled handler x.0 x.1).0 (handled handler x.0 x.1).1
  handled_post (ok a, u) on_ok on_err = on_ok a refl
  handled_post (err e, u) on_ok on_err = on_err e refl

  -- A `try` block that returns is left alone; the handler goes on where one that throws ended.
  pub catch_post :
      (m : Act o A) (s : St o)
      → ((a : A) → (m s).0 ≡ ok a → P (ok a) (m s).1)
      → ((e : Failure) → (m s).0 ≡ err e → P (handler e (m s).1).0 (handler e (m s).1).1)
      → P (catch m handler s).0 (catch m handler s).1
  catch_post m s on_ok on_err = handled_post (m s) on_ok on_err

pub ruleset keeps_rules =
    (Keeps-pure, Keeps-throw, Keeps-lift, Keeps-if, Keeps-catch, Keeps-bind, Keeps-call)
