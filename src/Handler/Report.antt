-- ===== src/Handler/Report.antt =====
-- The result that a job reports.
pub mod Jobs
use price_scout.Base.{ℕ, suc, Bool, true, false, ◌≡◌, refl, sym, ap, ◌∙◌, ◌⊎◌, inl, inr, ◌↔◌, arith}
use price_scout.Base.{Option, none, some, List, [], ◌∷◌, Option-cases, Bool-cases, if◌then◌else◌}
use price_scout.Base.Text.{Text, codes}
use price_scout.Base.Unicode.{Unicode}
use price_scout.Base.Effects.{
  Result, ok, err, ok-injective, Failure, safety, stale, validation, plain,
}
use mathlib.Core.Path.{subst}
use price_scout.Contracts.{
  Classification, Kind, compile, check, repair, Revision, ExecutionInput, ExecutionResult,
  Observation, Plan, Status, Artifact,
}
use price_scout.Config.{Config}
use price_scout.Outside.{Platform, Outside, Url, Session, main, validator}
use price_scout.Outside.Act.{St, Act, call, pure, throw, lift, catch, ◌>>=◌, ◌>>◌}
use price_scout.Outside.Keeps.{catch_post, >>=-eq-ok}
use price_scout.Outside.Returns.{
  Returns, Returns-pure, Returns-bind, Returns-after, Returns-catch, Returns-finally, Returns-if,
  Returns-throw,
}
use price_scout.Validation.Identity.Laws.{Belongs}
use price_scout.Browser.{new_run, init}
use price_scout.Artifacts.{capture_evidence}
use price_scout.Compiler.{compile_monitor}
use price_scout.Compiler.Verify.{Outcome, observe_valid}
use price_scout.Compiler.Laws.{IsConfirmed, observe_valid-Belongs, monitor-IsConfirmed}
use price_scout.Handler.{
  timed, bare_result, compiled, checked, repaired, finish, evidence, run_compile, run_check,
  repair_outcome, run_repair, run_kind, attempt_job, report_failure, finish_failed, terminal_error,
  evidence_unless, execute_job, require_revision, session_of,
}
use price_scout.Handler.Failure.{report_of, status_of, classify_failure}
use price_scout.Handler.Replay.{
  warm_check, heal, heal_steps, repair_live, validate_repair_fresh, assert_observations_agree,
  is_final, healed_outcome, throw_if_aborted, closing,
}
use price_scout.Handler.Agreement.{IsSameOffer, assert_observations_agree_iff}

-- Another browser was opened, and replaying the plan in it, without a model, gave the observation.
abbrev pub IsSecondLook : Platform → Outside → Plan → Observation → Type 0
IsSecondLook p o plan fresh =
    (target : Url) × (before : St o) × (opened : St o) × (after : St o) × (init validator
        target.hostname before
      ≡ (ok tt, opened))
    × (warm_check p validator plan target opened ≡ (ok fresh, after))

-- The error that ends a job is the reason of an abort if there was one, and else what was thrown.
abbrev pub EndsWith : Option Failure → Failure → Failure → Type 0
EndsWith (some reason) thrown e = e ≡ reason
EndsWith none thrown e = e ≡ thrown

pub EndsWith-terminal_error :
    (aborted : Option Failure) (thrown : Failure)
    → EndsWith aborted thrown (terminal_error aborted thrown)
EndsWith-terminal_error (some reason) thrown = refl
EndsWith-terminal_error none thrown = refl

-- The job threw, and ends with this error.
abbrev pub Ended : Platform → (o : Outside) → Config → ExecutionInput → St o → Failure → Type 0
Ended p o config input s e =
    (thrown : Failure) × ((attempt_job p config input (o.clock s.world) s).0 ≡ err thrown)
    × EndsWith (o.aborted (attempt_job p config input (o.clock s.world) s).1.world) thrown e

-- What a successful job of each kind reports.
abbrev pub Fulfils : Platform → Outside → ExecutionInput → Kind → ExecutionResult → Type 0
Fulfils p o input compile r =
    (outcome : Outcome) × (r.candidate_plan ≡ some outcome.plan)
    × (r.observation ≡ some outcome.observation)
    × IsConfirmed p outcome
    × (r.requires_confirmation ≡ some true)
Fulfils p o input check r =
    (revision : Revision) × (observation : Observation) × (input.revision ≡ some revision)
    × (r.observation ≡ some observation)
    × Belongs p.unicode observation revision.plan
    × (r.generation ≡ some revision.generation)
    × (r.candidate_plan ≡ none)
    × (r.model_call_count ≡ 0)
Fulfils p o input repair r =
    (revision : Revision) × (outcome : Outcome) × (fresh : Observation) × (input.revision
      ≡ some revision)
    × (r.candidate_plan ≡ some outcome.plan)
    × IsConfirmed p outcome
    × IsSecondLook p o outcome.plan fresh
    × Belongs p.unicode fresh outcome.plan
    × IsSameOffer outcome.observation fresh
    × (r.generation ≡ some (suc revision.generation))
    × (r.requires_confirmation ≡ some false)

pub record IsAbout (input : ExecutionInput) (r : ExecutionResult) : Type 0 where
  pub kind : r.kind ≡ input.kind
  pub execution : r.execution_id ≡ input.id
  pub monitor : r.monitor_id ≡ input.monitor_id

-- A successful result, or one with a failure and neither a plan, an observation nor a generation.
pub data IsReport (p : Platform) (o : Outside) (config : Config) (input : ExecutionInput) (s : St o)
    (r : ExecutionResult) : Type 0 where
  done :
      IsAbout input r
      → r.status ≡ Status.succeeded
      → r.failure ≡ none
      → Fulfils p o input input.kind r
      → IsReport p o config input s r
  ended :
      IsAbout input r
      → (e : Failure) → Ended p o config input s e
      → r.status ≡ status_of e
      → r.failure ≡ some (report_of p.unicode e)
      → r.candidate_plan ≡ none
      → r.observation ≡ none
      → r.generation ≡ none
      → IsReport p o config input s r

module _ (p : Platform) {o : Outside} (run : Session) where
  pub warm_check-Belongs :
      (plan : Plan) (target : Url)
      → Returns {o = o}
          (λ observation. Belongs p.unicode observation plan)
          (warm_check p run plan target)
  unfolding warm_check
  warm_check-Belongs plan target = search (Returns-after, observe_valid-Belongs) depth 14

  heal-IsConfirmed :
      (plan : Plan) (target : Url) → Returns {o = o} (IsConfirmed p) (heal p run plan target)
  unfolding heal
  heal-IsConfirmed plan target =
      Returns-after (heal_steps p run plan.preparation_steps target) _ (λ steps.
        let candidate = record plan { preparation_steps = steps } in
        Returns-bind (observe_valid p run candidate) _ (λ first s e.
          Returns-after (λ t. (ok (o.self_heal_count run t.world), t)) _
            (λ metric.
              Returns-pure (healed_outcome candidate first metric)
                ((observe_valid-Belongs p run candidate).at s first e))))

  pub repair-IsConfirmed :
      (config : Config) (input : ExecutionInput) (plan : Plan) (target : Url)
      → Returns {o = o} (IsConfirmed p) (repair_live p run config input plan target)
  unfolding repair_live
  repair-IsConfirmed config input plan target =
      search
        (
          Returns-after, Returns-catch, Returns-if, Returns-throw, heal-IsConfirmed,
          monitor-IsConfirmed,
        )
        depth 16

module _ (p : Platform) {o : Outside} where
  pub timed-Returns :
      {A : Type 0} {Q : A → Type 0} (name : Text) (m : Act o A)
      → Returns Q m
      → Returns Q (timed name m)
  timed-Returns name m km = record { at = km.at }

  not_aborted : (s t : St o) → throw_if_aborted s ≡ (ok tt, t) → s ≡ t
  not_aborted s t h = still (o.aborted s.world) h
    where
      still :
          (x : Option Failure)
          → elim x as (λ _. Result (Unit {0}) × St o) [
            | none ↦ (ok tt, s)
            | some reason ↦ (err reason, s)
          ]
            ≡ (ok tt, t)
          → s ≡ t
      still none h = ap (λ x. x.1) h
      still (some reason) h = absurd (cc (ap (λ x. x.0) h))

  -- The `try` block of `validateRepairFresh`.
  abbrev second_look : Plan → Url → Act o Observation
  second_look plan target = throw_if_aborted >>= λ _.
      (init validator target.hostname >>= λ _.
      (throw_if_aborted >>= λ _.
      (warm_check p validator plan target >>= λ observation.
      (throw_if_aborted >>= λ _. pure observation))))

  pub fresh-IsSecondLook :
      (config : Config) (plan : Plan) (target : Url)
      → Returns {o = o} (IsSecondLook p o plan) (validate_repair_fresh p config plan target)
  unfolding validate_repair_fresh
  fresh-IsSecondLook config plan target =
      Returns-after (new_run config validator _) _
        (λ _. Returns-finally _ (closing validator) (record { at = seen }))
    where
      seen :
          (s : St o) (fresh : Observation)
          → (second_look plan target s).0 ≡ ok fresh
          → IsSecondLook p o plan fresh
      seen s fresh h =
          let t = (second_look plan target s).1 in
          let (_, before, _, h1) = >>=-eq-ok _ throw_if_aborted s t fresh (λ i. (h i, t)) in
          let (_, opened, started, h2) =
            >>=-eq-ok _ (init validator target.hostname) before t fresh h1 in
          let (_, same, clear, h3) = >>=-eq-ok _ throw_if_aborted opened t fresh h2 in
          let (observation, after, looked, h4) =
            >>=-eq-ok _ (warm_check p validator plan target) same t fresh h3 in
          let (_, end, _, h5) = >>=-eq-ok _ throw_if_aborted after t fresh h4 in
          let is_fresh : observation ≡ fresh = ok-injective (ap (λ x. x.0) h5) in
          (
            target,
            before,
            opened,
            after,
            started,
            ap (warm_check p validator plan target) (not_aborted opened same clear)
                ∙ looked
                ∙ ap (λ x. (ok x, after)) is_fresh,
          )

  pub second_look-Belongs :
      (plan : Plan) (fresh : Observation)
      → IsSecondLook p o plan fresh
      → Belongs p.unicode fresh plan
  second_look-Belongs plan fresh (target, before, opened, after, started, looked) =
      (warm_check-Belongs p validator plan target).at opened fresh (ap (λ x. x.0) looked)
