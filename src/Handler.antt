-- ===== src/Handler.antt =====
-- `executeJob` of worker/src/handler.ts. The listener that closes the browser when the job is
-- aborted runs beside the calls; what it does to them is in the world's answers.
pub mod Failure
pub mod Decisions
pub mod Replay
pub mod Calls
pub mod Report
pub mod Agreement
pub mod Outward
pub mod Closing
use price_scout.Base.{ℕ, suc, ◌+◌, ◌-◌, ◌/◌, Bool, true, false, not, ◌||◌, ◌&&◌, Option, none, some}
use price_scout.Base.{List, [], ◌∷◌, ◌++◌, if◌then◌else◌}
use price_scout.Base.Text.{Text, codes, text_eq}
use price_scout.Base.Effects.{Result, ok, err, plain, msg}
use price_scout.Base.Effects
use price_scout.Contracts.{
  Kind, compile, check, repair, CompilerMode, Revision, ExecutionInput, ExecutionResult, Artifact,
  Observation, Plan, Status, CacheStatus, Provider,
}
use price_scout.Contracts.Entries.{insert}
use price_scout.Config.{Config}
use price_scout.Outside.{Platform, Outside, Url, Session, main}
use price_scout.Outside.Act.{St, Act, call, pure, throw, lift, catch, ◌>>=◌, ◌>>◌}
use price_scout.Safety.Url.{validate_target_url}
use price_scout.Browser.{present, new_run, init, close}
use price_scout.Artifacts.{capture_evidence}
use price_scout.Compiler.{Compiler, compiler_at, origin_of, compile_monitor}
use price_scout.Compiler.Verify.{Outcome}
use Failure.{report_of, status_of}
use Replay.{
  assert_observations_agree, throw_if_aborted, closing, warm_check, repair_live,
  validate_repair_fresh,
}
unfoldable pub use Decisions.{
  elapsed, require_revision, scripted_job, is_check, heals, job_options, terminal_error,
  bare_result, compiled, checked, repaired, if_present,
}

module _ {o : Outside} where
  abbrev pub put_timing : Text → ℕ → St o → St o
  put_timing name started s = record s {
    timings = insert name (elapsed started (o.clock s.world)) s.timings;
  }

  abbrev pub timed : {A : Type 0} → Text → Act o A → Act o A
  timed name work s = let (r, t) = work s in (r, put_timing name (o.clock s.world) t)

  abbrev pub set_run : Act o (Unit {0})
  set_run s = (ok tt, record s { has_run = true })

  abbrev pub set_page : Act o (Unit {0})
  set_page s = (ok tt, record s { has_page = true })

  abbrev pub session_of : St o → Option Text
  session_of s = if s.has_run then if_present (o.session_id main s.world) else none

  -- `metric(run, "actSelfHealCount")`
  abbrev metric_of : St o → ℕ
  metric_of s = if s.has_run then o.self_heal_count main s.world else 0

module _ (p : Platform) {o : Outside} (config : Config) (input : ExecutionInput) where
  abbrev pub evidence : Act o (List Artifact)
  evidence = timed (codes "evidence") (capture_evidence p main config.artifact_dir input.id)

  -- The successful result, with what the kind of job adds to it.
  abbrev pub finish :
      ℕ → List Artifact → ℕ → (ExecutionResult → ExecutionResult) → Act o ExecutionResult
  finish started artifacts calls complete s =
      let t = put_timing (codes "total") started s in
      (
        ok (
            complete
              (bare_result config input (session_of t) Status.succeeded artifacts calls t.timings)),
        t,
      )

  unfoldable pub run_compile : ℕ → Url → Act o ExecutionResult
  run_compile started target = do
    outcome ← timed (codes "compile") (compile_monitor p config main input target)
    artifacts ← evidence
    finish started artifacts outcome.model_call_count (compiled outcome)

  unfoldable pub run_check : ℕ → Revision → Url → Act o ExecutionResult
  run_check started revision target = do
    observation ← timed (codes "warmCheck") (warm_check p main revision.plan target)
    artifacts ← evidence
    finish started artifacts 0 (checked revision observation)

  abbrev pub repair_outcome : Bool → Revision → Url → Act o Outcome
  repair_outcome scripted revision target =
      if scripted
      then timed (codes "scriptedRepair") (compile_monitor p config main input target)
      else timed (codes "stagehandRepair") (repair_live p main config input revision.plan target)

  unfoldable pub run_repair : ℕ → Bool → Revision → Url → Act o ExecutionResult
  run_repair started scripted revision target = do
    outcome ← repair_outcome scripted revision target
    fresh ← timed (codes "freshValidation") (validate_repair_fresh p config outcome.plan target)
    lift (assert_observations_agree outcome.observation fresh)
    artifacts ← evidence
    finish started artifacts outcome.model_call_count (repaired revision outcome)

  -- The rest of the job once the browser is open.
  unfoldable pub run_kind : ℕ → Bool → Url → Kind → Act o ExecutionResult
  run_kind started scripted target compile = run_compile started target
  run_kind started scripted target check = do
    revision ← lift (require_revision input)
    run_check started revision target
  run_kind started scripted target repair = do
    revision ← lift (require_revision input)
    run_repair started scripted revision target

  -- The `try` block.
  unfoldable pub attempt_job : ℕ → Act o ExecutionResult
  attempt_job started = do
    throw_if_aborted
    target ←
        timed (codes "urlValidation") (validate_target_url p input.url config.allowed_private_hosts)
    throw_if_aborted
    scripted ← lift (scripted_job p config input target)
    new_run config main (job_options input.kind scripted)
    set_run
    throw_if_aborted
    timed (codes "browserInit") (init main target.hostname)
    set_page
    throw_if_aborted
    run_kind started scripted target input.kind

  abbrev failure_evidence : Act o (List Artifact)
  failure_evidence =
      catch (timed (codes "failureEvidence") (capture_evidence p main config.artifact_dir input.id))
        (λ _. pure [])

  abbrev pub evidence_unless : Bool → Option Effects.Failure → Act o (List Artifact)
  evidence_unless true none = failure_evidence
  evidence_unless _ _ = pure []

  -- The result of a job that ended with an error.
  abbrev pub finish_failed : ℕ → Effects.Failure → List Artifact → Act o ExecutionResult
  finish_failed started final artifacts s =
      let t = put_timing (codes "total") started s in
      (
        ok
            (record (bare_result config input (session_of t) (status_of final) artifacts
              (metric_of t) t.timings) { failure = some (report_of p.unicode final) }),
        t,
      )

  -- The `catch` block.
  unfoldable pub report_failure : ℕ → Effects.Failure → Act o ExecutionResult
  report_failure started error s =
      (evidence_unless s.has_page (o.aborted s.world)
          >>= finish_failed started (terminal_error (o.aborted s.world) error))
        s

  -- The `finally` block closes the browser if there is one.
  abbrev pub closing_job : St o → St o
  closing_job s = if s.has_run then closing main s else s

  unfoldable pub execute_job : Act o ExecutionResult
  execute_job s =
      let started = o.clock s.world in
      let (r, t) = catch (attempt_job started) (report_failure started) s in (r, closing_job t)
