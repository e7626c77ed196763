-- ===== src/Contracts.antt =====
-- worker/src/contracts.ts: the data that the worker's parts exchange. An optional property is an
-- `Option`, a `Record<string, string>` the list of its entries in insertion order with distinct
-- keys. Properties of a literal type with one value (`schemaVersion`, `stagehandVersion`,
-- `validatorVersion`) carry no information and are left out.
pub mod Entries
use price_scout.Base.{ℕ, Bool, Option, List}
use price_scout.Base.Text.{Text}

pub data Currency : Type 0 where
  usd cad eur gbp aud : Currency

pub record Action : Type 0 where
  pub selector : Text
  pub description : Text
  pub method : Option Text
  pub arguments : Option (List Text)

pub data JsonLdField : Type 0 where
  title sku price currency availability : JsonLdField

-- The attribute of the first two kinds is optional.
pub data Strategy : Type 0 where
  xpath_text : Text → Option Text → Strategy
  input_value : Text → Option Text → Strategy
  json_ld : JsonLdField → Strategy

pub data Purpose : Type 0 where
  consent variant expand : Purpose

pub record Step : Type 0 where
  pub purpose : Purpose
  pub instruction : Text
  pub action : Action

pub record Identity : Type 0 where
  pub title : Text
  pub brand : Option Text
  pub sku : Option Text
  pub fingerprint : Text
  pub requested_variant : List (Text × Text)

pub record Extractors : Type 0 where
  pub title : List Strategy
  pub price : List Strategy
  pub currency : Option (List Strategy)
  pub availability : List Strategy
  pub selected_variant : List Strategy
  pub sku : Option (List Strategy)

pub record Plan : Type 0 where
  pub canonical_url : Text
  pub identity : Identity
  pub preparation_steps : List Step
  pub extractors : Extractors
  pub expected_currency : Currency

pub record Condition : Type 0 where
  pub max_price_minor : Option ℕ
  pub price_below_minor : Option ℕ
  pub currency : Option Currency
  pub require_in_stock : Bool
  pub requested_variant : List (Text × Text)

pub data Kind : Type 0 where
  compile check repair : Kind

pub data State : Type 0 where
  queued running succeeded failed blocked needs_review : State

pub data CompilerMode : Type 0 where
  auto scripted live : CompilerMode

pub record Revision : Type 0 where
  pub id : Option Text
  pub generation : ℕ
  pub plan : Plan

pub record ExecutionInput : Type 0 where
  pub id : Text
  pub kind : Kind
  pub state : State
  pub attempt : ℕ
  pub failed_generation : Option ℕ
  pub monitor_id : Text
  pub url : Text
  pub intent : Text
  pub condition : Option Condition
  pub revision : Option Revision
  pub compiler_mode : CompilerMode

pub record Observation : Type 0 where
  pub title : Text
  pub sku : Option Text
  pub price_minor : ℕ
  pub currency : Currency
  pub in_stock : Bool
  pub availability_raw : Text
  pub selected_variant : List (Text × Text)
  pub raw_price : Text
  pub identity_fingerprint : Text

pub data ArtifactKind : Type 0 where
  screenshot snapshot : ArtifactKind

pub data ContentType : Type 0 where
  image_png text_plain : ContentType

pub record Artifact : Type 0 where
  pub kind : ArtifactKind
  pub storage_key : Text
  pub content_type : ContentType
  pub size_bytes : ℕ
  pub sha256 : Text

pub data Classification : Type 0 where
  transient_infrastructure blocked rate_limited stale_action stale_extractor : Classification
  identity_drift ambiguous_value invalid_input : Classification

pub data Status : Type 0 where
  succeeded failed needs_review : Status

pub data CacheStatus : Type 0 where
  hit miss : CacheStatus

pub data Source : Type 0 where
  scripted stagehand : Source

pub data Provider : Type 0 where
  local browserbase : Provider

pub record FailureReport : Type 0 where
  pub classification : Classification
  pub message : Text

pub record ExecutionResult : Type 0 where
  pub status : Status
  pub kind : Kind
  pub execution_id : Text
  pub monitor_id : Text
  pub generation : Option ℕ
  pub candidate_plan : Option Plan
  pub observation : Option Observation
  pub artifacts : List Artifact
  pub model_call_count : ℕ
  pub browser_provider : Provider
  pub browserbase_session_id : Option Text
  pub trace_id : Option Text
  pub cache_status : Option CacheStatus
  pub repair_source : Option Source
  pub requires_confirmation : Option Bool
  pub failure : Option FailureReport
  pub timings_ms : List (Text × ℕ)
