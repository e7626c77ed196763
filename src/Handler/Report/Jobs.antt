-- ===== src/Handler/Report/Jobs.antt =====
-- What each kind of job returns, and that every job returns.
use price_scout.Base.{ℕ, Bool, true, false, ◌≡◌, refl, inl, inr, arith}
use price_scout.Base.{Option, none, some, List, [], Option-cases}
use price_scout.Base.Text.{Text, codes}
use price_scout.Base.Effects.{Result, ok, ok-injective, Failure}
use mathlib.Core.Path.{subst}
use price_scout.Contracts.{
  Kind, compile, check, repair, Revision, ExecutionInput, ExecutionResult, Status, Artifact,
}
use price_scout.Config.{Config}
use price_scout.Outside.{Platform, Outside, Url, main}
use price_scout.Outside.Act.{St, pure, lift}
use price_scout.Outside.Keeps.{catch_post, >>=_post}
use price_scout.Outside.Returns.{Returns, Returns-bind, Returns-after}
use price_scout.Artifacts.{capture_evidence}
use price_scout.Compiler.{compile_monitor}
use price_scout.Compiler.Laws.{IsConfirmed, monitor-IsConfirmed}
use price_scout.Handler.{
  timed, bare_result, compiled, checked, repaired, finish, evidence, run_compile, run_check,
  repair_outcome, run_repair, run_kind, attempt_job, report_failure, finish_failed, terminal_error,
  evidence_unless, execute_job, require_revision, session_of, put_timing,
}
use price_scout.Handler.Replay.{warm_check, validate_repair_fresh, assert_observations_agree}
use price_scout.Handler.Agreement.{assert_observations_agree_iff}
use price_scout.Handler.Report.{
  Fulfils, IsAbout, IsReport, done, ended, warm_check-Belongs, repair-IsConfirmed, timed-Returns,
  fresh-IsSecondLook, second_look-Belongs, Ended, EndsWith-terminal_error,
}

abbrev pub Succeeds : Platform → Outside → ExecutionInput → Kind → ExecutionResult → Type 0
Succeeds p o input kind r =
    IsAbout input r × (r.status ≡ Status.succeeded) × (r.failure ≡ none) × Fulfils p o input kind r

revision_given :
    (input : ExecutionInput) (revision : Revision)
    → require_revision input ≡ ok revision
    → input.revision ≡ some revision
unfolding require_revision
revision_given input revision e = elim (Option-cases input.revision) [
  | inl h ↦ ground arith
  | inr (r, h) ↦ ground arith
]

module _ (p : Platform) {o : Outside} (config : Config) (input : ExecutionInput) where
  finish-Returns :
      {Q : ExecutionResult → Type 0} (started : ℕ) (l : List Artifact) (calls : ℕ)
      → (f : ExecutionResult → ExecutionResult)
      → ((s : St o) (t : List (Text × ℕ))
          → Q (f (bare_result config input (session_of s) Status.succeeded l calls t)))
      → Returns {o = o} Q (finish p config input started l calls f)
  finish-Returns {Q} started l calls f h = record {
    at = λ s a e.
        subst Q (ok-injective e)
          (h (put_timing (codes "total") started s) (put_timing (codes "total") started s).timings);
  }

  run_compile-Succeeds :
      (started : ℕ) (target : Url)
      → Returns {o = o} (Succeeds p o input compile) (run_compile p config input started target)
  unfolding run_compile
  run_compile-Succeeds started target =
      Returns-bind (timed (codes "compile") (compile_monitor p config main input target)) _
        (λ outcome s e.
          let confirmed = (monitor-IsConfirmed p main config input target).at s outcome e in
          Returns-after (evidence p config input) _ (λ l.
            finish-Returns started l outcome.model_call_count (compiled outcome) (λ t timings. (
              record { kind = refl; execution = refl; monitor = refl },
              refl,
              refl,
              (outcome, refl, refl, confirmed, refl),
            ))))

  run_check-Succeeds :
      (started : ℕ) (revision : Revision) (target : Url)
      → input.revision ≡ some revision
      → Returns {o = o}
          (Succeeds p o input check)
          (run_check p config input started revision target)
  unfolding run_check
  run_check-Succeeds started revision target given =
      Returns-bind (timed (codes "warmCheck") (warm_check p main revision.plan target)) _
        (λ observation s e.
          let belongs = (warm_check-Belongs p main revision.plan target).at s observation e in
          Returns-after (evidence p config input) _ (λ l.
            finish-Returns started l 0 (checked revision observation) (λ t timings. (
              record { kind = refl; execution = refl; monitor = refl },
              refl,
              refl,
              (revision, observation, given, refl, belongs, refl, refl, refl),
            ))))

  outcome-IsConfirmed :
      (scripted : Bool) (revision : Revision) (target : Url)
      → Returns {o = o} (IsConfirmed p) (repair_outcome p config input scripted revision target)
  outcome-IsConfirmed true revision target =
      timed-Returns p (codes "scriptedRepair") _ (monitor-IsConfirmed p main config input target)
  outcome-IsConfirmed false revision target =
      timed-Returns p (codes "stagehandRepair") _
        (repair-IsConfirmed p main config input revision.plan target)

  run_repair-Succeeds :
      (started : ℕ) (scripted : Bool) (revision : Revision) (target : Url)
      → input.revision ≡ some revision
      → Returns {o = o}
          (Succeeds p o input repair)
          (run_repair p config input started scripted revision target)
  unfolding run_repair
  run_repair-Succeeds started scripted revision target given =
      Returns-bind (repair_outcome p config input scripted revision target) _ (λ outcome s e.
        let confirmed = (outcome-IsConfirmed scripted revision target).at s outcome e in
        Returns-bind
          (timed (codes "freshValidation") (validate_repair_fresh p config outcome.plan target)) _
          (λ fresh t g.
            let looked = (fresh-IsSecondLook p config outcome.plan target).at t fresh g in
            let belongs = second_look-Belongs p outcome.plan fresh looked in
            Returns-bind (lift (assert_observations_agree outcome.observation fresh)) _
              (λ _ u agreed.
                let same = (assert_observations_agree_iff outcome.observation fresh).0 agreed in
                Returns-after (evidence p config input) _ (λ l.
                  finish-Returns started l outcome.model_call_count (repaired revision outcome)
                    (λ v timings. (
                      record { kind = refl; execution = refl; monitor = refl },
                      refl,
                      refl,
                      (
                        revision, outcome, fresh, given, refl, confirmed, looked, belongs, same,
                        refl, refl,
                      ),
                    ))))))

  run_kind-Succeeds :
      (started : ℕ) (scripted : Bool) (target : Url) (kind : Kind)
      → Returns {o = o}
          (Succeeds p o input kind)
          (run_kind p config input started scripted target kind)
  unfolding run_kind
  run_kind-Succeeds started scripted target compile = run_compile-Succeeds started target
  run_kind-Succeeds started scripted target check =
      Returns-bind (lift (require_revision input)) _ (λ revision s e.
        run_check-Succeeds started revision target (revision_given input revision e))
  run_kind-Succeeds started scripted target repair =
      Returns-bind (lift (require_revision input)) _ (λ revision s e.
        run_repair-Succeeds started scripted revision target (revision_given input revision e))

  run-Succeeds :
      (started : ℕ) (scripted : Bool) (target : Url)
      → Returns {o = o}
          (Succeeds p o input input.kind)
          (run_kind p config input started scripted target input.kind)
  run-Succeeds started scripted target = run_kind-Succeeds started scripted target input.kind

  attempt_job-Succeeds :
      (started : ℕ)
      → Returns {o = o} (Succeeds p o input input.kind) (attempt_job p config input started)
  unfolding attempt_job
  attempt_job-Succeeds started = search (Returns-after, run-Succeeds) depth 30

  about_failed :
      (first : St o) (started : ℕ) (e : Failure) (l : List Artifact) (s : St o)
      → Ended p o config input first e
      → (r : ExecutionResult) × ((finish_failed p config input started e l s).0 ≡ ok r)
        × IsReport p o config input first r
  about_failed first started e l s is_end = (
    _,
    refl,
    ended (record { kind = refl; execution = refl; monitor = refl }) e is_end refl refl refl refl
        refl,
  )

  unfoldable Reports : St o → Result ExecutionResult → St o → Type 0
  Reports first x t = (r : ExecutionResult) × (x ≡ ok r) × IsReport p o config input first r

  evidence_returns :
      (b : Bool) (x : Option Failure) (s : St o)
      → (l : List Artifact) × ((evidence_unless p config input b x s).0 ≡ ok l)
  evidence_returns true none s =
      catch_post (λ r t. (l : List Artifact) × (r ≡ ok l)) (λ _. pure [])
        (timed (codes "failureEvidence") (capture_evidence p main config.artifact_dir input.id)) s
        (λ l e. (l, refl)) (λ f e. ([], refl))
  evidence_returns true (some e) s = ([], refl)
  evidence_returns false x s = ([], refl)

  report_failure-IsReport :
      (first : St o) (started : ℕ) (e : Failure) (s : St o)
      → Ended p o config input first (terminal_error (o.aborted s.world) e)
      → (r : ExecutionResult) × ((report_failure p config input started e s).0 ≡ ok r)
        × IsReport p o config input first r
  unfolding report_failure Reports
  report_failure-IsReport first started e s is_end =
      let (l, given) = evidence_returns s.has_page (o.aborted s.world) s in
      >>=_post (Reports first)
        (finish_failed p config input started (terminal_error (o.aborted s.world) e))
        (evidence_unless p config input s.has_page (o.aborted s.world)) s (λ f h. absurd cc)
        (λ artifacts h.
          about_failed first started (terminal_error (o.aborted s.world) e) artifacts
            (evidence_unless p config input s.has_page (o.aborted s.world) s).1 is_end)

-- Every job returns a result. If it succeeded, the result is what its kind promises: an
-- observation that belongs to the plan; for a check one of the active revision, without a model
-- call; for a repair a plan of the next generation, whose replay in a second browser, opened for
-- it, observed the same offer. If it failed, the result says which error ended it, the reason of an
-- abort or else what the job threw, and holds no plan, observation or generation.
pub execute_job-IsReport :
    (p : Platform) (o : Outside) (config : Config) (input : ExecutionInput) (s : St o)
    → (r : ExecutionResult) × ((execute_job p config input s).0 ≡ ok r)
      × IsReport p o config input s r
unfolding execute_job Reports
execute_job-IsReport p o config input s =
    let started = o.clock s.world in
    catch_post (Reports p config input s) (report_failure p config input started)
      (attempt_job p config input started) s
      (λ r e.
        let (about, succeeded, clean, fulfils) =
          (attempt_job-Succeeds p config input started).at s r e in
        (r, refl, done about succeeded clean fulfils))
      (λ e h.
        report_failure-IsReport p config input s started e _ (e, h, EndsWith-terminal_error _ e))
