-- ===== src/Web/Client/Diagnostics.antt =====
-- `normalizeExecution`, `asRecord` and `numericRecord` of web/src/api/client.ts: the diagnostics of
-- an execution, read from what the control plane stored of the worker's result.
pub mod Laws
use price_scout.Base.{ℕ, Bool, true, false, not, ◌||◌, Option, none, some, List, [], ◌∷◌, ◌^◌, ◌<◌}
use price_scout.Base.{◌≡◌, or_else, chain, is_some, if◌then◌else◌}
use price_scout.Base.Text.{Text, codes, text_eq, show}
use mathlib.Core.Option
use price_scout.Contracts.{CacheStatus, hit, miss, Source, scripted, stagehand}
use price_scout.Outside.{Json, num, str, obj, Members, end, member}
use price_scout.Api.Input.{at}
use price_scout.Web.Types.{Execution, ExecutionSummary, ExecutionDiagnostics}
use price_scout.Web.Client.Normalize.{Dates, with_duration}

-- What the console asks of a number, by the text that shows it.
pub record Numerals : Type 0 where
  pub whole : Text → Option ℕ  -- its value where `Number.isInteger(x) && x >= 0`
  pub is_measure : Text → Bool  -- `Number.isFinite(x) && x >= 0`
  pub whole_show : (n : ℕ) → n < 2 ^ 53 → whole (show n) ≡ some n
  pub measure_show : (n : ℕ) → n < 2 ^ 53 → is_measure (show n) ≡ true

-- The value as an object that is no array.
abbrev pub as_record : Option Json → Option Members
as_record (some (obj ms)) = some ms
as_record _ = none

abbrev pub read_cache : Option Json → Option CacheStatus
read_cache (some (str s)) =
    if text_eq s (codes "HIT")
    then some hit
    else if text_eq s (codes "MISS")
    then some miss
    else none
read_cache _ = none

abbrev pub read_source : Option Json → Option Source
read_source (some (str s)) =
    if text_eq s (codes "scripted")
    then some scripted
    else if text_eq s (codes "stagehand")
    then some stagehand
    else none
read_source _ = none

abbrev nonempty : List (Text × Text) → Option (List (Text × Text))
nonempty [] = none
nonempty (e ∷ es) = some (e ∷ es)

abbrev has_any : ExecutionDiagnostics → Bool
has_any d =
    is_some d.model_call_count
    || is_some d.cache_status
    || is_some d.repair_source
    || is_some d.timings_ms

-- An object that would have no property is left out.
abbrev pub unless_empty : ExecutionDiagnostics → Option ExecutionDiagnostics
unless_empty d = if has_any d then some d else none

module _ (n : Numerals) where
  abbrev pub read_count : Option Json → Option ℕ
  read_count (some (num t)) = n.whole t
  read_count _ = none

  abbrev add_measure : Text → Json → List (Text × Text) → List (Text × Text)
  add_measure key (num t) entries = if n.is_measure t then (key, t) ∷ entries else entries
  add_measure key _ entries = entries

  unfoldable pub measures : Members → List (Text × Text)
  measures end = []
  measures (member key v more) = add_measure key v (measures more)

  abbrev pub numeric_record : Option Json → Option (List (Text × Text))
  numeric_record value = chain (as_record value) (λ ms. nonempty (measures ms))

  abbrev pub read_fields : Option Json → ExecutionDiagnostics
  read_fields source = record {
    model_call_count = read_count (at source (codes "modelCallCount"));
    cache_status = read_cache (at source (codes "cacheStatus"));
    repair_source = read_source (at source (codes "repairSource"));
    timings_ms = numeric_record (at source (codes "timingsMs"));
  }

  -- `result` and `diagnostics` are the properties of the raw execution.
  unfoldable pub diagnostics_of : Option Json → Option Json → Option ExecutionDiagnostics
  diagnostics_of result diagnostics =
      let stored =
        Option.map obj (as_record (at (Option.map obj (as_record result)) (codes "diagnostics"))) in
      unless_empty (read_fields (or_else stored diagnostics))

-- An execution as it is answered: its properties, and the unread `result` and `diagnostics`.
pub record RawExecution : Type 0 where
  pub execution : Execution
  pub result : Option Json
  pub diagnostics : Option Json

unfoldable pub normalize_execution : Dates → Numerals → RawExecution → Execution
normalize_execution time n raw = record raw.execution {
  summary = with_duration time raw.execution.summary;
  diagnostics = diagnostics_of n raw.result raw.diagnostics;
}
