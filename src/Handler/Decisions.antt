-- ===== src/Handler/Decisions.antt =====
-- The pure part of `executeJob` of worker/src/handler.ts: which compiler it takes, and the results
-- that it builds.
use price_scout.Base.{ℕ, suc, ◌+◌, ◌-◌, ◌/◌, Bool, true, false, not, ◌&&◌, Option, none, some}
use price_scout.Base.{List, ◌++◌, if◌then◌else◌}
use price_scout.Base.Text.{Text, codes}
use price_scout.Base.Effects.{Result, ok, err, plain, msg}
use price_scout.Base.Effects
use price_scout.Contracts.{
  Kind, compile, check, repair, CompilerMode, Revision, ExecutionInput, ExecutionResult, Artifact,
  Observation, Status, CacheStatus,
}
use price_scout.Config.{Config}
use price_scout.Outside.{Platform, Url}
use price_scout.Browser.{present, RunOptions}
use price_scout.Compiler.{Compiler, compiler_at, origin_of}
use price_scout.Compiler.Verify.{Outcome}

-- `Math.round` of a duration in milliseconds
abbrev pub elapsed : ℕ → ℕ → ℕ
elapsed started now = (now - started + 500) / 1000

abbrev kind_name : Kind → Text
kind_name compile = codes "compile"
kind_name check = codes "check"
kind_name repair = codes "repair"

-- The schema that parses the plan has passed it before, with the input.
unfoldable pub require_revision : ExecutionInput → Result Revision
require_revision input = elim input.revision [
  | some revision ↦ ok revision
  | none ↦
      err (plain (kind_name input.kind ++ msg " execution requires an active monitor revision"))
]

abbrev pub is_scripted : Compiler → Bool
is_scripted Compiler.scripted = true
is_scripted Compiler.live = false

abbrev scripted_or_throw : Result Compiler → Result Bool
scripted_or_throw (ok c) = ok (is_scripted c)
scripted_or_throw (err e) = err e

abbrev scripted_by : Platform → Config → Url → CompilerMode → Result Bool
scripted_by p config target CompilerMode.scripted = ok true
scripted_by p config target CompilerMode.live = ok false
scripted_by p config target CompilerMode.auto =
    scripted_or_throw (compiler_at target (origin_of p config.fixture_origin))

-- The variable `scripted`.
unfoldable pub scripted_job : Platform → Config → ExecutionInput → Url → Result Bool
scripted_job p config input target = scripted_by p config target input.compiler_mode

abbrev pub is_check : Kind → Bool
is_check check = true
is_check _ = false

-- `selfHeal: input.execution.kind === "repair"`
abbrev pub heals : Kind → Bool
heals repair = true
heals _ = false

-- The options of a job's browser.
abbrev pub job_options : Kind → Bool → RunOptions
job_options kind scripted = record {
  self_heal = heals kind;
  needs_model = not scripted && not (is_check kind);
}

-- `signal?.aborted ? abortReason(signal) : error`
abbrev pub terminal_error : Option Effects.Failure → Effects.Failure → Effects.Failure
terminal_error (some reason) error = reason
terminal_error none error = error

-- The properties that all results have; the optional ones are absent.
abbrev pub bare_result :
    Config
    → ExecutionInput
    → Option Text
    → Status
    → List Artifact
    → ℕ
    → List (Text × ℕ)
    → ExecutionResult
bare_result config input session status artifacts calls timings = record {
  status = status;
  kind = input.kind;
  execution_id = input.id;
  monitor_id = input.monitor_id;
  generation = none;
  candidate_plan = none;
  observation = none;
  artifacts = artifacts;
  model_call_count = calls;
  browser_provider = config.browser_provider;
  browserbase_session_id = session;
  trace_id = none;
  cache_status = none;
  repair_source = none;
  requires_confirmation = none;
  failure = none;
  timings_ms = timings;
}

-- What each kind of job adds to its result.
abbrev pub compiled : Outcome → ExecutionResult → ExecutionResult
compiled outcome r = record r {
  candidate_plan = some outcome.plan;
  observation = some outcome.observation;
  cache_status = some CacheStatus.miss;
  requires_confirmation = some true;
}

abbrev pub checked : Revision → Observation → ExecutionResult → ExecutionResult
checked revision observation r = record r {
  generation = some revision.generation;
  observation = some observation;
  cache_status = some CacheStatus.hit;
}

abbrev pub repaired : Revision → Outcome → ExecutionResult → ExecutionResult
repaired revision outcome r = record r {
  generation = some (suc revision.generation);
  candidate_plan = some outcome.plan;
  cache_status = some CacheStatus.miss;
  repair_source = some outcome.source;
  requires_confirmation = some false;
}

abbrev pub if_present : Option Text → Option Text
if_present t = if present t then t else none
