-- ===== src/Web/Client/Diagnostics/Laws.antt =====
-- The diagnostics that the worker posts come back in the console.
use price_scout.Base.{ℕ, ◌<◌, ◌^◌, ◌≡◌, refl, ap, ◌∙◌, Option, none, some, List, [], ◌∷◌}
use price_scout.Base.{All}
use price_scout.Base.Text.{Text, codes, text_eq, show}
use mathlib.Core.Option
use price_scout.Contracts.{CacheStatus, hit, miss, Source, scripted, stagehand, ExecutionResult}
use price_scout.Outside.{Json, num, str, obj, Members, end, member}
use price_scout.Api.{Diagnostics, result_body}
use price_scout.Api.Input.{put}
use price_scout.Api.Input.Laws.{get-put, get-put-other}
use price_scout.Extract.Product.{get}
use price_scout.Web.Types.{ExecutionDiagnostics}
use price_scout.Web.Client.Normalize.{Dates}
use price_scout.Web.Client.Diagnostics.{
  Numerals, read_cache, read_source, read_count, measures, numeric_record, read_fields,
  diagnostics_of, unless_empty, RawExecution, normalize_execution,
}

-- `JSON.stringify` of the worker's diagnostics.
abbrev pub cache_text : CacheStatus → Text
cache_text hit = codes "HIT"
cache_text miss = codes "MISS"

abbrev pub source_text : Source → Text
source_text scripted = codes "scripted"
source_text stagehand = codes "stagehand"

abbrev pub timings_object : List (Text × ℕ) → Members
timings_object [] = end
timings_object ((key, ms) ∷ more) = member key (num (show ms)) (timings_object more)

abbrev pub encoded : Diagnostics → Members
encoded d = member (codes "modelCallCount") (num (show d.model_call_count)) (
    put (codes "cacheStatus") (Option.map (λ c. str (cache_text c)) d.cache_status) (
      put (codes "repairSource") (Option.map (λ s. str (source_text s)) d.repair_source)
        (member (codes "timingsMs") (obj (timings_object d.timings_ms)) end)))

abbrev pub shown_timings : List (Text × ℕ) → List (Text × Text)
shown_timings [] = []
shown_timings ((key, ms) ∷ more) = (key, show ms) ∷ shown_timings more

abbrev pub timings_or_none : List (Text × ℕ) → Option (List (Text × Text))
timings_or_none [] = none
timings_or_none (t ∷ ts) = some (shown_timings (t ∷ ts))

-- The diagnostics as the console has them.
abbrev pub shown : Diagnostics → ExecutionDiagnostics
shown d = record {
  model_call_count = some d.model_call_count;
  cache_status = d.cache_status;
  repair_source = d.repair_source;
  timings_ms = timings_or_none d.timings_ms;
}

abbrev pub IsSmall : Diagnostics → Type 0
IsSmall d = (d.model_call_count < 2 ^ 53) × All (λ (t : Text × ℕ). t.1 < 2 ^ 53) d.timings_ms

module _ (n : Numerals) where
  measures_shown :
      (l : List (Text × ℕ))
      → All (λ (t : Text × ℕ). t.1 < 2 ^ 53) l
      → measures n (timings_object l) ≡ shown_timings l
  unfolding measures
  measures_shown [] h = refl
  measures_shown ((key, ms) ∷ l) (small, h) = rw (n.measure_show ms small, measures_shown l h) refl

  numeric_record_shown :
      (l : List (Text × ℕ))
      → All (λ (t : Text × ℕ). t.1 < 2 ^ 53) l
      → numeric_record n (some (obj (timings_object l))) ≡ timings_or_none l
  unfolding measures
  numeric_record_shown [] h = refl
  numeric_record_shown (t ∷ l) h = rw (measures_shown (t ∷ l) h) refl

  read_cache_shown :
      (c : Option CacheStatus) → read_cache (Option.map (λ c. str (cache_text c)) c) ≡ c
  unfolding text_eq
  read_cache_shown none = refl
  read_cache_shown (some hit) = refl
  read_cache_shown (some miss) = refl

  read_source_shown :
      (s : Option Source) → read_source (Option.map (λ s. str (source_text s)) s) ≡ s
  unfolding text_eq
  read_source_shown none = refl
  read_source_shown (some scripted) = refl
  read_source_shown (some stagehand) = refl

module _ (d : Diagnostics) where
  abbrev timings_end : Members
  timings_end = member (codes "timingsMs") (obj (timings_object d.timings_ms)) end

  abbrev cache_json : Option Json
  cache_json = Option.map (λ c. str (cache_text c)) d.cache_status

  abbrev source_json : Option Json
  source_json = Option.map (λ s. str (source_text s)) d.repair_source

  cache_read : get (codes "cacheStatus") (encoded d) ≡ cache_json
  unfolding get text_eq
  cache_read =
      get-put (codes "cacheStatus") cache_json _ refl
        (get-put-other (codes "repairSource") source_json timings_end (codes "cacheStatus") refl)

  source_read : get (codes "repairSource") (encoded d) ≡ source_json
  unfolding get text_eq
  source_read =
      get-put-other (codes "cacheStatus") cache_json
        (put (codes "repairSource") source_json timings_end) (codes "repairSource") refl
      ∙ get-put (codes "repairSource") source_json timings_end refl refl

  timings_read : get (codes "timingsMs") (encoded d) ≡ some (obj (timings_object d.timings_ms))
  unfolding get text_eq
  timings_read =
      get-put-other (codes "cacheStatus") cache_json
        (put (codes "repairSource") source_json timings_end) (codes "timingsMs") refl
      ∙ get-put-other (codes "repairSource") source_json timings_end (codes "timingsMs") refl

  count_read : get (codes "modelCallCount") (encoded d) ≡ some (num (show d.model_call_count))
  unfolding get text_eq
  count_read = refl

  module _ (n : Numerals) (small : IsSmall d) where
    fields_shown : read_fields n (some (obj (encoded d))) ≡ shown d
    fields_shown =
        let count = ap (read_count n) count_read ∙ n.whole_show d.model_call_count small.0 in
        let cache = ap read_cache cache_read ∙ read_cache_shown n d.cache_status in
        let source = ap read_source source_read ∙ read_source_shown n d.repair_source in
        let timings =
          ap (numeric_record n) timings_read ∙ numeric_record_shown n d.timings_ms small.1 in
        λ i. record {
          model_call_count = count i;
          cache_status = cache i;
          repair_source = source i;
          timings_ms = timings i;
        }

    diagnostics_shown :
        (result other : Option Json) (ms : Members)
        → result ≡ some (obj ms)
        → get (codes "diagnostics") ms ≡ some (obj (encoded d))
        → diagnostics_of n result other ≡ some (shown d)
    unfolding diagnostics_of
    diagnostics_shown result other ms posted kept = rw (posted, kept) (ap unless_empty fields_shown)

-- The control plane keeps the diagnostics that the worker posts and answers with them. The console
-- then shows what the worker reported: the number of model calls, the cache, the source of a repair,
-- and the timings if there are any, for numbers that a double holds exactly.
pub normalize_execution-result_body :
    (time : Dates) (n : Numerals) (r : ExecutionResult) (raw : RawExecution) (ms : Members)
    → IsSmall (result_body r).diagnostics
    → raw.result ≡ some (obj ms)
    → get (codes "diagnostics") ms ≡ some (obj (encoded (result_body r).diagnostics))
    → (normalize_execution time n raw).diagnostics ≡ some (shown (result_body r).diagnostics)
unfolding normalize_execution
normalize_execution-result_body time n r raw ms small posted kept =
    diagnostics_shown (result_body r).diagnostics n small raw.result raw.diagnostics ms posted kept
