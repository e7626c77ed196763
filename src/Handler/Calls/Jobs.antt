-- ===== src/Handler/Calls/Jobs.antt =====
-- The calls of a whole job.
use price_scout.Base.{ℕ, Bool, false, refl}
use price_scout.Base.Text.{Text, codes}
use price_scout.Contracts.{Kind, compile, check, repair, ExecutionInput, Plan, Revision}
use price_scout.Config.{Config}
use price_scout.Outside.{
  Platform, Outside, Url, Session, main, validator, Call, launch, construct, deterministic_only,
}
use price_scout.Outside.Act.{Act, lift}
use price_scout.Outside.Makes.{Makes, Makes-lift, Makes-bind}
use price_scout.Outside.Emits.{Emits, Emits-Makes, Emits-still, Emits-bind, Emits-finally}
use price_scout.Safety.Replay.Calls.{Allows}
use price_scout.Browser.{client_of, new_run, init}
use price_scout.Compiler.{compile_monitor}
use price_scout.Handler.{
  timed, repaired, set_run, set_page, evidence, run_kind, run_repair, repair_outcome, attempt_job,
  scripted_job, job_options,
}
use price_scout.Handler.Replay.{throw_if_aborted, closing, validate_repair_fresh}
use price_scout.Handler.Calls.{
  aborted-Makes, timed-Makes, new_run-Makes, validated-Makes, evidence-Makes, finish-Makes,
  run_check-Makes, run_compile-Makes, outcome-Makes,
}
use price_scout.Handler.Calls.Browser.{validate-Makes}
use price_scout.Handler.Calls.Sessions.{init-Emits, closing-Grows}

timed-Emits :
    {P : Call → Type 0} {o : Outside} {A : Type 0} (name : Text) (m : Act o A)
    → Emits P m
    → Emits P (timed name m)
timed-Emits name m km = record { at = km.at }

-- The calls that make and start the browsers of a job of a kind.
pub record Starts (P : Call → Type 0) (kind : Kind) : Type 0 where
  pub launches : (run : Session) → P (launch run)
  pub own :
      (scripted : Bool)
      → P (
          construct main
            (job_options kind scripted).self_heal
            (client_of (job_options kind scripted).needs_model))
  pub other : P (construct validator false deterministic_only)

module _ (p : Platform) {o : Outside} {P : Call → Type 0} (allows : Allows p.unicode P)
    (config : Config) (input : ExecutionInput) (starts : Starts P input.kind) where
  open starts use {launches, own, other}

  fresh-Emits :
      (plan : Plan) (target : Url) → Emits P {o = o} (validate_repair_fresh p config plan target)
  unfolding validate_repair_fresh
  fresh-Emits plan target =
      Emits-bind (new_run config validator _) _
        (Emits-Makes (
          new_run-Makes config validator (record { self_heal = false; needs_model = false }) other))
        (λ _.
          Emits-finally _ (closing validator)
            (Emits-bind throw_if_aborted _ (Emits-Makes aborted-Makes) (λ _.
              Emits-bind (init validator target.hostname) _
                (init-Emits p allows validator (launches validator) target.hostname)
                (λ _. Emits-Makes (validated-Makes p allows plan target))))
            (λ s. closing-Grows p allows validator s))

  run_repair-Emits :
      (started : ℕ) (scripted : Bool) (revision : Revision) (target : Url)
      → Makes P {o = o} (repair_outcome p config input scripted revision target)
      → Emits P {o = o} (run_repair p config input started scripted revision target)
  unfolding run_repair
  run_repair-Emits started scripted revision target outcomes =
      Emits-bind _ _ (Emits-Makes outcomes) (λ outcome.
        Emits-bind _ _ (timed-Emits (codes "freshValidation") _ (fresh-Emits outcome.plan target))
          (λ fresh. Emits-Makes (
            Makes-bind (lift _) _ (Makes-lift _) (λ _.
              Makes-bind (evidence p config input) _ (evidence-Makes p allows config input) (λ l.
                finish-Makes p allows config input started l outcome.model_call_count
                  (repaired revision outcome))))))

  pub run_kind-Emits :
      (target : Url) (compiles : Makes P {o = o} (compile_monitor p config main input target))
      (started : ℕ) (scripted : Bool) (kind : Kind)
      → Emits P {o = o} (run_kind p config input started scripted target kind)
  unfolding run_kind
  run_kind-Emits target compiles started scripted compile =
      Emits-Makes (run_compile-Makes p allows config input target compiles started)
  run_kind-Emits target compiles started scripted check = Emits-Makes (
      Makes-bind (lift _) _ (Makes-lift _)
        (λ revision. run_check-Makes p allows config input started revision target))
  run_kind-Emits target compiles started scripted repair =
      Emits-bind (lift _) _ (Emits-Makes (Makes-lift _)) (λ revision.
        run_repair-Emits started scripted revision target
          (outcome-Makes p allows config input target compiles scripted revision))

  module _
      (kinds : (started : ℕ) (scripted : Bool) (target : Url)
        → Emits P {o = o} (run_kind p config input started scripted target input.kind)) where
    pub attempt_job-Emits : (started : ℕ) → Emits P {o = o} (attempt_job p config input started)
    unfolding attempt_job
    attempt_job-Emits started = Emits-bind throw_if_aborted _ (Emits-Makes aborted-Makes) (λ _.
        Emits-bind _ _
          (Emits-Makes (
            timed-Makes (codes "urlValidation") _
              (validate-Makes p allows input.url config.allowed_private_hosts)))
          (λ target. Emits-bind throw_if_aborted _ (Emits-Makes aborted-Makes) (λ _.
            Emits-bind (lift (scripted_job p config input target)) _ (Emits-Makes (Makes-lift _))
              (λ scripted.
                Emits-bind (new_run config main _) _
                  (Emits-Makes
                    (new_run-Makes config main (job_options input.kind scripted) (own scripted)))
                  (λ _. Emits-bind set_run _ (Emits-still _ (λ s. refl)) (λ _.
                    Emits-bind throw_if_aborted _ (Emits-Makes aborted-Makes) (λ _.
                      Emits-bind _ _
                        (timed-Emits (codes "browserInit") _
                          (init-Emits p allows main (launches main) target.hostname))
                        (λ _. Emits-bind set_page _ (Emits-still _ (λ s. refl)) (λ _.
                          Emits-bind throw_if_aborted _ (Emits-Makes aborted-Makes)
                            (λ _. kinds started scripted target))))))))))
