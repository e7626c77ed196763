-- ===== src/Web/Types.antt =====
-- web/src/types.ts: the data that the console reads. An optional property is an `Option`. The
-- prices, generations, counts and durations of the control plane are natural numbers; dates and
-- addresses are texts.
use price_scout.Base.{ℕ, Bool, Option, List}
use price_scout.Base.Text.{Text}
use price_scout.Contracts.{CacheStatus, Source}
use price_scout.Outside.{Json}

pub data MonitorStatus : Type 0 where
  compiling awaiting_confirmation active needs_review paused blocked : MonitorStatus

pub data ExecutionState : Type 0 where
  queued running succeeded failed blocked needs_review cancelled : ExecutionState

pub record PriceCondition : Type 0 where
  pub price_below_minor : Option ℕ
  pub currency : Option Text
  pub require_in_stock : Bool
  pub requested_variant : List (Text × Text)

pub data VerificationState : Type 0 where
  verified review_required failed blocked : VerificationState

pub record Observation : Type 0 where
  pub id : Text
  pub execution_id : Option Text
  pub price_minor : Option ℕ
  pub currency : Option Text
  pub in_stock : Option Bool
  pub raw_text : Option Text
  pub title : Option Text
  pub selected_variant : Option (List (Text × Text))
  pub verification_state : Option VerificationState
  pub observed_at : Text
  pub screenshot_url : Option Text

pub data RevisionSource : Type 0 where
  compile repair : RevisionSource

pub record PlanIdentity : Type 0 where
  pub title : Option Text
  pub brand : Option Text
  pub sku : Option Text
  pub requested_variant : Option (List (Text × Text))

pub record PlanStep : Type 0 where
  pub purpose : Text
  pub instruction : Text

pub record RevisionPlan : Type 0 where
  pub identity : Option PlanIdentity
  pub expected_currency : Option Text
  pub preparation_steps : Option (List PlanStep)

pub record MonitorRevision : Type 0 where
  pub id : Text
  pub generation : ℕ
  pub source : Option RevisionSource
  pub validation_state : Option Text
  pub created_at : Text
  pub activated_at : Option Text
  pub plan : Option RevisionPlan

pub record ExecutionSummary : Type 0 where
  pub id : Text
  pub monitor_id : Option Text
  pub revision_id : Option Text
  pub kind : Text
  pub state : ExecutionState
  pub requested_generation : Option ℕ
  pub attempt : Option ℕ
  pub provider : Option Text
  pub started_at : Option Text
  pub completed_at : Option Text
  pub created_at : Text
  pub duration_ms : Option ℕ
  pub failure_classification : Option Text

pub record Monitor : Type 0 where
  pub id : Text
  pub url : Text
  pub intent : Text
  pub name : Option Text
  pub status : MonitorStatus
  pub condition : Option PriceCondition
  pub interval_minutes : Option ℕ
  pub next_run_at : Option Text
  pub current_revision_id : Option Text
  pub current_generation : Option ℕ
  pub latest_observation : Option Observation
  pub observations : Option (List Observation)
  pub revisions : Option (List MonitorRevision)
  pub executions : Option (List ExecutionSummary)
  pub created_at : Text
  pub updated_at : Option Text

pub record Artifact : Type 0 where
  pub id : Text
  pub kind : Text
  pub url : Text
  pub label : Option Text
  pub created_at : Option Text

pub data StepStatus : Type 0 where
  pending running succeeded failed : StepStatus

pub record TraceStep : Type 0 where
  pub id : Option Text
  pub label : Text
  pub detail : Option Text
  pub status : Option StepStatus
  pub timestamp : Option Text
  pub duration_ms : Option ℕ

-- A timing may be any number, and stands as the text that shows it.
pub record ExecutionDiagnostics : Type 0 where
  pub model_call_count : Option ℕ
  pub cache_status : Option CacheStatus
  pub repair_source : Option Source
  pub timings_ms : Option (List (Text × Text))

pub data ExecutionError : Type 0 where
  text : Text → ExecutionError
  described : Option Text → Option Text → ExecutionError

-- `Execution extends ExecutionSummary`
pub record Execution : Type 0 where
  pub summary : ExecutionSummary
  pub open summary use *
  pub observation : Option Observation
  pub artifacts : Option (List Artifact)
  pub steps : Option (List TraceStep)
  pub error : Option ExecutionError
  pub browser_session_url : Option Text
  pub trace_id : Option Text
  pub diagnostics : Option ExecutionDiagnostics

pub record Change : Type 0 where
  pub field : Text
  pub before : Option Text
  pub after : Option Text

pub record Comparison : Type 0 where
  pub previous : Option MonitorRevision
  pub changes : Option (List Change)

pub record Review : Type 0 where
  pub monitor : Monitor
  pub revision : MonitorRevision
  pub evidence : Option (List Artifact)
  pub comparison : Option Comparison

pub record CreateMonitorInput : Type 0 where
  pub url : Text
  pub intent : Text
  pub interval_minutes : ℕ

pub record CreateMonitorResult : Type 0 where
  pub monitor : Monitor
  pub execution_id : Option Text

pub record SystemEvent : Type 0 where
  pub id : Text
  pub type : Text
  pub occurred_at : Text
  pub monitor_id : Option Text
  pub execution_id : Option Text
  pub message : Option Text
  pub details : Option Json

pub data Health : Type 0 where
  healthy unhealthy unknown : Health

pub data Readiness : Type 0 where
  ready not_ready unknown : Readiness

pub record ServiceStatus : Type 0 where
  pub health : Health
  pub ready : Readiness
  pub checked_at : Text
