-- ===== src/Handler/Calls.antt =====
-- The calls of the parts of a job that neither open nor close a browser.
pub mod Browser
pub mod Sessions
pub mod Jobs
use price_scout.Base.{
  ℕ, Bool, true, false, not, ◌&&◌, ◌≡◌, refl, sym, ap, ◌⊎◌, inl, inr, Option, none, some,
}
use price_scout.Base.{List, [], ◌∷◌, if◌then◌else◌}
use price_scout.Base.Text.{Text, codes}
use price_scout.Base.Effects.{Result, ok, err}
use price_scout.Base.Effects
use price_scout.Contracts.{
  Action, Artifact, Kind, Step, compile, check, repair, CompilerMode, ExecutionInput,
  ExecutionResult, Observation, Plan, Revision,
}
use price_scout.Config.{Config}
use price_scout.Outside.{Platform, Outside, Url, Session, main, validator, Call, act, construct}
use price_scout.Outside.Act.{St, Act, call, pure, throw, lift, catch, ◌>>=◌, ◌>>◌}
use price_scout.Outside.Makes.{
  Grows, Grows-trans, same, Makes, makes_rules, Makes-still, Makes-pure, Makes-throw, Makes-lift,
  Makes-catch, Makes-bind, Makes-bind_given, held, Makes-call, Makes-if,
}
use price_scout.Safety.Action.Laws.{IsSafeAction}
use price_scout.Safety.Url.{validate_target_url}
use price_scout.Safety.Replay.{replay_safe_action}
use price_scout.Safety.Replay.Calls.{Allows, is_quiet, replay_safe_action-Makes}
use price_scout.Browser.{public_action, present, RunOptions, client_of, new_run, init, close}
use price_scout.Artifacts.{capture_evidence}
use price_scout.Compiler.{Compiler, compile_monitor, choose_compiler, compile_with}
use price_scout.Compiler.Verify.{Outcome, replay_steps, observe_valid}
use price_scout.Compiler.Calls.{
  asks_model, replay_steps-Makes, observe_valid-Makes, compile_monitor-Makes, goto-Makes,
  page_url-Makes,
}
use price_scout.Handler.{
  timed, compiled, checked, repaired, set_run, set_page, finish, evidence, run_compile, run_check,
  repair_outcome, run_repair, run_kind, attempt_job, report_failure, evidence_unless, closing_job,
  execute_job, scripted_job, require_revision, is_check,
}
use price_scout.Handler.Replay.{
  throw_if_aborted, closing, warm_check, heal_steps, heal, repair_live, validate_repair_fresh,
  assert_observations_agree, is_final, healed_outcome,
}
use Browser.{capture-Makes}

module _ {o : Outside} {P : Call → Type 0} where
  pub timed-Makes : {A : Type 0} (name : Text) (m : Act o A) → Makes P m → Makes P (timed name m)
  timed-Makes name m km = record { at = km.at; still = record { at = km.still.at } }

  pub aborted-Makes : Makes P {o = o} throw_if_aborted
  aborted-Makes = Makes-still throw_if_aborted (λ s. still s (o.aborted s.world))
    where
      still :
          (s : St o) (x : Option Effects.Failure)
          → let t =
              (elim x as (λ _. Result (Unit {0}) × St o) [
                | none ↦ (ok tt, s)
                | some reason ↦ (err reason, s)
              ]).1 in
            (t.calls ≡ s.calls) × (held t ≡ held s)
      still s none = (refl, refl)
      still s (some e) = (refl, refl)

  -- The constructor makes the driver with the client that its options ask for.
  pub new_run-Makes :
      (config : Config) (run : Session) (options : RunOptions)
      → P (construct run options.self_heal (client_of options.needs_model))
      → Makes P {o = o} (new_run config run options)
  unfolding new_run
  new_run-Makes config run options h =
      Makes-if (options.needs_model && not (present config.model_api_key)) _ _ (Makes-throw _)
        (Makes-call (construct run options.self_heal (client_of options.needs_model)) h)

module _ (p : Platform) {o : Outside} (run : Session) {P : Call → Type 0}
    (allows : Allows p.unicode P) where
  pub warm_check-Makes :
      (plan : Plan) (target : Url) → Makes P {o = o} (warm_check p run plan target)
  unfolding warm_check
  warm_check-Makes plan target = Makes-bind (call _) _ (goto-Makes p run allows _) (λ _.
      Makes-bind (call _) _ (page_url-Makes p run allows) (λ current.
        Makes-bind (lift _) _ (Makes-lift _) (λ _.
          Makes-bind (replay_steps p run plan.preparation_steps target) _
            (replay_steps-Makes p run allows plan.preparation_steps target)
            (λ _. observe_valid-Makes p run allows plan))))

  heal_steps-Makes : (l : List Step) (target : Url) → Makes P {o = o} (heal_steps p run l target)
  unfolding heal_steps
  heal_steps-Makes [] target = Makes-pure []
  heal_steps-Makes (step ∷ rest) target =
      Makes-bind (replay_safe_action p run step.action target) _
        (replay_safe_action-Makes p run allows step.action target)
        (λ healed.
          Makes-bind (heal_steps p run rest target) _ (heal_steps-Makes rest target)
            (λ steps. Makes-pure _))

  heal-Makes : (plan : Plan) (target : Url) → Makes P {o = o} (heal p run plan target)
  unfolding heal
  heal-Makes plan target =
      Makes-bind (heal_steps p run plan.preparation_steps target) _
        (heal_steps-Makes plan.preparation_steps target)
        (λ steps.
          Makes-bind (observe_valid p run (record plan { preparation_steps = steps })) _
            (observe_valid-Makes p run allows (record plan { preparation_steps = steps }))
            (λ first.
              Makes-bind (λ s. (ok (o.self_heal_count run s.world), s)) _
                (Makes-still _ (λ s. (refl, refl)))
                (λ metric.
                  Makes-pure
                    (healed_outcome (record plan { preparation_steps = steps }) first metric))))

  module _ (config : Config) (input : ExecutionInput) (target : Url)
      (compiles : Makes P {o = o} (compile_monitor p config run input target)) where
    repair_live-Makes : (plan : Plan) → Makes P {o = o} (repair_live p run config input plan target)
    unfolding repair_live
    repair_live-Makes plan = Makes-bind (call _) _ (goto-Makes p run allows _) (λ _.
        Makes-bind (call _) _ (page_url-Makes p run allows) (λ current.
          Makes-bind (lift _) _ (Makes-lift _) (λ _.
            Makes-catch (heal p run plan target) _ (heal-Makes plan target)
              (λ e. Makes-if (is_final e) _ _ (Makes-throw e) compiles))))

module _ (p : Platform) {o : Outside} {P : Call → Type 0} (allows : Allows p.unicode P) where
  -- What `validateRepairFresh` does once its browser is open.
  pub validated-Makes :
      (plan : Plan) (target : Url)
      → Makes P {o = o} (
          throw_if_aborted >>= λ _.
          (warm_check p validator plan target >>= λ observation.
          (throw_if_aborted >>= λ _. pure observation)))
  validated-Makes plan target = Makes-bind throw_if_aborted _ aborted-Makes (λ _.
      Makes-bind (warm_check p validator plan target) _
        (warm_check-Makes p validator allows plan target)
        (λ observation. Makes-bind throw_if_aborted _ aborted-Makes (λ _. Makes-pure _)))

  module _ (config : Config) (input : ExecutionInput) where
    pub evidence-Makes : Makes P {o = o} (evidence p config input)
    evidence-Makes = timed-Makes _ _ (capture-Makes p allows main config.artifact_dir input.id)

    pub finish-Makes :
        (started : ℕ) (l : List Artifact) (calls : ℕ) (f : ExecutionResult → ExecutionResult)
        → Makes P {o = o} (finish p config input started l calls f)
    finish-Makes started l calls f = Makes-still _ (λ s. (refl, refl))

    pub run_check-Makes :
        (started : ℕ) (revision : Revision) (target : Url)
        → Makes P {o = o} (run_check p config input started revision target)
    unfolding run_check
    run_check-Makes started revision target =
        Makes-bind _ _
          (timed-Makes (codes "warmCheck") _ (warm_check-Makes p main allows revision.plan target))
          (λ observation.
            Makes-bind (evidence p config input) _ evidence-Makes
              (λ l. finish-Makes started l 0 (checked revision observation)))

    module _ (target : Url)
        (compiles : Makes P {o = o} (compile_monitor p config main input target)) where
      pub run_compile-Makes :
          (started : ℕ) → Makes P {o = o} (run_compile p config input started target)
      unfolding run_compile
      run_compile-Makes started =
          Makes-bind _ _ (timed-Makes (codes "compile") _ compiles) (λ outcome.
            Makes-bind (evidence p config input) _ evidence-Makes
              (λ l. finish-Makes started l outcome.model_call_count (compiled outcome)))

      pub outcome-Makes :
          (scripted : Bool) (revision : Revision)
          → Makes P {o = o} (repair_outcome p config input scripted revision target)
      outcome-Makes true revision = timed-Makes _ _ compiles
      outcome-Makes false revision =
          timed-Makes _ _
            (repair_live-Makes p main allows config input target compiles revision.plan)
