-- ===== src/Handler/Calls/Sessions.antt =====
-- The calls that open and close a browser.
use price_scout.Base.{true, ◌≡◌, refl}
use price_scout.Base.Text.{Text}
use price_scout.Base.Effects.{ok, plain, msg}
use price_scout.Outside.{
  Platform, Outside, Session, Call, launch, terminate, open_page, remove_cache, domain_policy,
}
use price_scout.Outside.Act.{St, call}
use price_scout.Outside.Makes.{
  Grows, Makes, makes_rules, Makes-still, Makes-pure, Makes-throw, Makes-catch, Makes-bind,
  Makes-call, Makes-if,
}
use price_scout.Outside.Emits.{Emits, Emits-Makes, Emits-still, Emits-bind, Emits-if}
use price_scout.Safety.Replay.Calls.{Allows, is_quiet}
use price_scout.Browser.{
  RunFlags, change, is_closing, quietly, initialize, init, close_once, close, set_flags, flags,
}

module _ (p : Platform) {o : Outside} {P : Call → Type 0} (allows : Allows p.unicode P)
    (run : Session) where
  open allows use {quiet}

  quiet_call : (c : Call) → is_quiet c ≡ true → Makes P {o = o} (call c)
  quiet_call c e = Makes-call c (quiet c e)

  change-still : (f : RunFlags → RunFlags) (s : St o) → (change run f s).1.calls ≡ s.calls
  change-still f s = set-still run
    where
      set-still : (r : Session) → (set_flags r (f (flags run s)) s).calls ≡ s.calls
      set-still Session.main = refl
      set-still Session.validator = refl

  change-Emits : (f : RunFlags → RunFlags) → Emits P {o = o} (change run f)
  change-Emits f = Emits-still (change run f) (change-still f)

  closing-Makes : Makes P {o = o} (is_closing run)
  closing-Makes = Makes-still (is_closing run) (λ s. (refl, refl))

  terminate-Makes : Makes P {o = o} (quietly (call (terminate run)))
  terminate-Makes =
      Makes-catch (call (terminate run)) _ (quiet_call (terminate run) refl) (λ e. Makes-pure tt)

  cache-Makes : Makes P {o = o} (quietly (call (remove_cache run)))
  cache-Makes =
      Makes-catch (call (remove_cache run)) _ (quiet_call (remove_cache run) refl)
        (λ e. Makes-pure tt)

  policy-Makes : (t : Text) → Makes P {o = o} (call (domain_policy run t))
  policy-Makes t = quiet_call (domain_policy run t) refl

  page-Makes : Makes P {o = o} (call (open_page run))
  page-Makes = quiet_call (open_page run) refl

  module _ (launches : P (launch run)) where
    launch-Makes : Makes P {o = o} (call (launch run))
    launch-Makes = Makes-call (launch run) launches

    pub initialize-Makes : (host : Text) → Makes P {o = o} (initialize run host)
    unfolding initialize
    initialize-Makes host =
        search (makes_rules, launch-Makes, closing-Makes, terminate-Makes, policy-Makes, page-Makes)
          depth 20

    pub init-Emits : (host : Text) → Emits P {o = o} (init run host)
    unfolding init
    init-Emits host = Emits-bind (is_closing run) _ (Emits-Makes closing-Makes) (λ b.
        Emits-if b _ _ (Emits-Makes (Makes-throw (plain (msg "Browser run is already closing")))) (
          Emits-bind (change run (λ f. record f { initialized = true })) _
            (change-Emits (λ f. record f { initialized = true }))
            (λ _. Emits-Makes (initialize-Makes host))))

  close_once-Emits : Emits P {o = o} (close_once run)
  unfolding close_once
  close_once-Emits =
      Emits-bind (change run (λ f. record f { closing = true })) _
        (change-Emits (λ f. record f { closing = true }))
        (λ _. Emits-Makes (
          Makes-bind (λ s. (ok (flags run s).initialized, s)) _ (Makes-still _ (λ s. (refl, refl)))
            (λ b.
              Makes-bind _ _
                (Makes-if b _ _
                  (Makes-bind (quietly (call (terminate run))) _ terminate-Makes
                    (λ _. terminate-Makes))
                  (Makes-pure tt))
                (λ _. cache-Makes))))

  close-Emits : Emits P {o = o} (close run)
  unfolding close
  close-Emits =
      Emits-bind (λ s. (ok (flags run s).closed, s)) _ (Emits-still _ (λ s. refl))
        (λ b. Emits-if b _ _ (Emits-Makes (Makes-pure tt)) (
          Emits-bind (close_once run) _ close_once-Emits
            (λ _. change-Emits (λ f. record f { closed = true }))))

  pub closing-Grows : (s : St o) → Grows P s.calls (close run s).1.calls
  closing-Grows s = close-Emits.at s
