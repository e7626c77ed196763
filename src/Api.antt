-- ===== src/Api.antt =====
-- worker/src/api.ts: what the worker posts to the control plane as the result of a job, and in
-- Input what it asks of it. The fetch is a parameter. An optional property that is absent is `none`;
-- the serialiser drops one that is `undefined`.
pub mod Input
pub mod Laws
use price_scout.Base.{ℕ, Bool, true, false, ◌&&◌, Option, none, some, List, [], ◌∷◌, ◌++◌}
use price_scout.Base.{if◌then◌else◌}
use mathlib.Core.Option
use price_scout.Base.Text.{Text, codes}
use price_scout.Base.Effects.{Result, ok, err, ◌>>=◌, Check, plain, msg}
use price_scout.Contracts.{
  Currency, Kind, compile, check, repair, Status, Classification, Observation, Plan, Artifact,
  CacheStatus, Source, Provider, local, browserbase, FailureReport, ExecutionResult,
}
use price_scout.Config.{Config}
use price_scout.Handler.Decisions.{if_present}

pub data VerificationState : Type 0 where
  verified review_required : VerificationState

-- The properties of the nested object `identity` stand beside the others.
pub record PostedObservation : Type 0 where
  pub price_minor : ℕ
  pub currency : Currency
  pub in_stock : Bool
  pub title : Text
  pub raw_text : Text
  pub fingerprint : Text
  pub sku : Option Text
  pub selected_variant : List (Text × Text)
  pub verification_state : VerificationState

pub record Diagnostics : Type 0 where
  pub model_call_count : ℕ
  pub cache_status : Option CacheStatus
  pub repair_source : Option Source
  pub timings_ms : List (Text × ℕ)

pub record Body : Type 0 where
  pub status : Status
  pub failure_classification : Option Classification
  pub error : Option Text
  pub provider : Text
  pub trace_id : Option Text
  pub browser_session_url : Option Text
  pub plan : Option Plan
  pub observation : Option PostedObservation
  pub artifacts : List Artifact
  pub auto_promote : Bool
  pub diagnostics : Diagnostics

abbrev pub provider_text : Provider → Text
provider_text local = codes "local"
provider_text browserbase = codes "browserbase"

abbrev pub is_repair : Kind → Bool
is_repair repair = true
is_repair _ = false

abbrev pub is_success : Status → Bool
is_success Status.succeeded = true
is_success _ = false

abbrev pub verification_of : Status → VerificationState
verification_of Status.needs_review = review_required
verification_of _ = verified

abbrev pub posted : Status → Observation → PostedObservation
posted status o = record {
  price_minor = o.price_minor;
  currency = o.currency;
  in_stock = o.in_stock;
  title = o.title;
  raw_text = o.raw_price;
  fingerprint = o.identity_fingerprint;
  sku = o.sku;
  selected_variant = o.selected_variant;
  verification_state = verification_of status;
}

abbrev pub session_url : Text → Text
session_url session = codes "https://www.browserbase.com/sessions/" ++ session

-- The constant `body`.
unfoldable pub result_body : ExecutionResult → Body
result_body r = record {
  status = r.status;
  failure_classification = Option.map (λ f. f.classification) r.failure;
  error = Option.map (λ f. f.message) r.failure;
  provider = provider_text r.browser_provider;
  trace_id = if_present r.trace_id;
  browser_session_url = Option.map session_url (if_present r.browserbase_session_id);
  plan = r.candidate_plan;
  observation = Option.map (posted r.status) r.observation;
  artifacts = r.artifacts;
  auto_promote = is_repair r.kind && is_success r.status;
  diagnostics = record {
    model_call_count = r.model_call_count;
    cache_status = r.cache_status;
    repair_source = r.repair_source;
    timings_ms = r.timings_ms;
  };
}

-- The request, without the abort signal: its address, method, headers and body.
pub record Request : Type 0 where
  pub url : Text
  pub method : Text
  pub headers : List (Text × Text)
  pub body : Body

-- `response.ok`, the text of `response.status`, and what reading the text of the response gives
pub record Reply : Type 0 where
  pub is_ok : Bool
  pub status : Text
  pub text : Result Text

module _ (encode : Text → Text) (config : Config) where
  -- `encode` is `encodeURIComponent`.
  abbrev pub result_request : Text → ExecutionResult → Request
  result_request id r = record {
    url =
        config.internal_api_url ++ codes "/internal/v1/executions/" ++ encode id ++ codes "/result";
    method = codes "POST";
    headers =
        (codes "X-Worker-Token", config.worker_token)
        ∷ (codes "Content-Type", codes "application/json")
        ∷ (codes "Idempotency-Key", id)
        ∷ [];
    body = result_body r;
  }

  abbrev pub read_reply : Reply → Check
  read_reply reply =
      if reply.is_ok
      then ok tt
      else reply.text >>= λ text.
          err (plain (msg "Control plane result failed (" ++ reply.status ++ msg "): " ++ text))

  -- `ControlPlaneClient.result`, for a fetch that answers the request or throws.
  unfoldable pub post_result : (Request → Result Reply) → Text → ExecutionResult → Check
  post_result fetch id r = fetch (result_request id r) >>= read_reply
