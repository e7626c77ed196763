-- ===== src/Handler/Closing/Opening.antt =====
-- Opening the browser of a job, and the one that validates a repair and is closed at once.
use price_scout.Base.{true, false, ◌≡◌, refl, sym, ◌⊎◌, inl, inr, List}
use price_scout.Base.Text.{Text}
use mathlib.Core.Path.{subst}
use price_scout.Contracts.{Plan}
use price_scout.Config.{Config}
use price_scout.Outside.{Platform, Outside, Url, main, validator, Call}
use price_scout.Outside.Act.{St, Act, pure, ◌>>=◌}
use price_scout.Outside.Makes.{held}
use price_scout.Outside.Takes.{Takes, Takes-bind}
use price_scout.Browser.{new_run, init}
use price_scout.Handler.{timed}
use price_scout.Handler.Replay.{throw_if_aborted, closing, warm_check, validate_repair_fresh}
use price_scout.Handler.Calls.{aborted-Makes, new_run-Makes, validated-Makes}
use price_scout.Handler.Calls.Sessions.{init-Emits, closing-Grows}
use price_scout.Handler.Closing.States.{
  Flags, none-Allows, MainAt, OverAt, BeforeAt, RunAt, OpenAt, At, MainAt-stable, BeforeAt-stable,
  OpenAt-stable, Takes-Makes,
}
use price_scout.Handler.Closing.{
  Grows-closed, Spares-Allows, close_closes, close_keeps_main, init_main-held, init_validator-held,
}

pub timed-Takes :
    {o : Outside} {A : Type 0} (Pre Post : Flags → List Call → Type 0) (name : Text) (m : Act o A)
    → Takes (At Pre) (At Post) m
    → Takes (At Pre) (At Post) (timed name m)
timed-Takes Pre Post name m km = record { at = km.at }

module _ (p : Platform) {o : Outside} where
  -- The job's browser is opened.
  pub init_main-Takes : (host : Text) → Takes {o = o} (At RunAt) (At BeforeAt) (init main host)
  init_main-Takes host = record { at = λ s h. opened s h (init_main-held p host s) }
    where
      opened :
          (s : St o)
          → At RunAt s
          → ((init main host s).1 ≡ s)
            ⊎ (held (init main host s).1
                ≡ (record s.main_run { initialized = true }, s.validator_run, s.has_run))
          → At BeforeAt (init main host s).1
      opened s h (inl e) = subst (At BeforeAt) (sym e) h.0
      opened s (((own, other), unclosed), has) (inr e) =
          let t = (init main host s).1 in
          let spared = (init-Emits p (Spares-Allows p.unicode validator) main refl host).at s in
          subst (λ k. BeforeAt k t.calls) (sym e)
            (((own.0, inr (has, refl)), Grows-closed validator spared other), unclosed)

  -- The browser of a validation is opened.
  init_validator-Takes : (host : Text) → Takes {o = o} (At OpenAt) (At OpenAt) (init validator host)
  init_validator-Takes host = record { at = λ s h. opened s h (init_validator-held p host s) }
    where
      opened :
          (s : St o)
          → At OpenAt s
          → ((init validator host s).1 ≡ s)
            ⊎ (held (init validator host s).1
                ≡ (s.main_run, record s.validator_run { initialized = true }, s.has_run))
          → At OpenAt (init validator host s).1
      opened s h (inl e) = subst (At OpenAt) (sym e) h
      opened s (own, (unclosed, closable)) (inr e) =
          let t = (init validator host s).1 in
          let spared = (init-Emits p (Spares-Allows p.unicode main) validator refl host).at s in
          subst (λ k. OpenAt k t.calls) (sym e)
            (MainAt-stable (held s) s.calls t.calls spared own, (unclosed, inr refl))

  -- It is closed.
  closing-Over : (s : St o) → At OpenAt s → At OverAt (closing validator s)
  closing-Over s (own, closable) =
      let t = closing validator s in
      let (flags_kept, has_kept) = close_keeps_main s in
      let spared = closing-Grows p (Spares-Allows p.unicode main) validator s in
      let kept : MainAt (held s) t.calls = MainAt-stable (held s) s.calls t.calls spared own in
      (
        subst (λ f. MainAt (f, t.validator_run, t.has_run) t.calls) (sym flags_kept)
            (subst (λ b. MainAt (s.main_run, t.validator_run, b) t.calls) (sym has_kept) kept),
        close_closes validator s closable,
      )

  pub fresh-Takes :
      (config : Config) (plan : Plan) (target : Url)
      → Takes {o = o} (At BeforeAt) (At OverAt) (validate_repair_fresh p config plan target)
  unfolding validate_repair_fresh
  fresh-Takes config plan target =
      Takes-bind (new_run config validator _) _
        (Takes-Makes BeforeAt BeforeAt-stable (
          new_run-Makes config validator (record { self_heal = false; needs_model = false })
            (refl, refl)))
        (λ s h. h.0)
        (λ _. record {
          at = λ s (over, unclosed). closing-Over _ (inside.at s (over.0, (unclosed, inl over.1)));
        })
    where
      inside : Takes {o = o} (At OpenAt) (At OpenAt) (
          throw_if_aborted >>= λ _.
          (init validator target.hostname >>= λ _.
          (throw_if_aborted >>= λ _.
          (warm_check p validator plan target >>= λ observation.
          (throw_if_aborted >>= λ _. pure observation)))))
      inside =
          Takes-bind throw_if_aborted _ (Takes-Makes OpenAt OpenAt-stable aborted-Makes) (λ s h. h)
            (λ _.
              Takes-bind (init validator target.hostname) _ (init_validator-Takes target.hostname)
                (λ s h. h)
                (λ _.
                  Takes-Makes OpenAt OpenAt-stable
                    (validated-Makes p (none-Allows p.unicode) plan target)))
