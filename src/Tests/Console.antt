-- ===== src/Tests/Console.antt =====
-- Theorems on the console of the operator.
use price_scout.Base.{
  ℕ, ◌≡◌, ◌⊎◌, refl, true, Option, none, some, [], ◌∷◌, ◌-◌, arith, ap, all, find, if◌then◌else◌,
}
use price_scout.Base.Sorting.{sort_by, insert_by}
use price_scout.Base.Decimal.{value_from, value-show, show-digits}
use price_scout.Base.Text.{Text, codes, text_eq, contains, starts_with, show, is_digit}
use price_scout.Contracts.{ExecutionResult, Status, CacheStatus, Source, repair}
use price_scout.Outside.{obj, null, Members, end, member}
use price_scout.Extract.Product.{get}
use price_scout.Handler.Decisions.{bare_result}
use price_scout.Api.{result_body}
use price_scout.Web.Types.{
  Monitor, MonitorStatus, MonitorRevision, Observation, Execution, ExecutionState, Review,
}
use price_scout.Web.Client.Request.{
  request, with_content_type, has_header, read_body, answered, refused, api,
}
use price_scout.Web.Client.Normalize.{
  Dates, MonitorAnswer, CreateAnswer, nested, observations_of, revisions_of, or_empty,
  normalize_monitor,
}
use price_scout.Web.Client.Normalize.Laws.{IsLatest, IsCurrent, normalize_monitor-shows}
use price_scout.Web.Client.Diagnostics.{Numerals, RawExecution, normalize_execution}
use price_scout.Web.Client.Diagnostics.Laws.{
  encoded, shown, IsSmall, normalize_execution-result_body,
}
use price_scout.Web.Client.Operations.{Browser, get_monitor, array, with_id}
use price_scout.Web.Client.Review.{get_review}
use price_scout.Web.Client.Review.Laws.{IsReview, get_review-IsReview}
use price_scout.Tests.Shop.{config, job}

-- Dates of one digit.
abbrev pub time : Dates
time (c ∷ []) = if is_digit c then some (c - 48) else none
time _ = none

abbrev pub observation : Text → Text → Observation
observation id date = record {
  id = id;
  execution_id = none;
  price_minor = some 109900;
  currency = some (codes "USD");
  in_stock = some true;
  raw_text = none;
  title = none;
  selected_variant = none;
  verification_state = none;
  observed_at = date;
  screenshot_url = none;
}

abbrev pub revision : Text → ℕ → MonitorRevision
revision id generation = record {
  id = id;
  generation = generation;
  source = none;
  validation_state = none;
  created_at = codes "1";
  activated_at = some (codes "1");
  plan = none;
}

abbrev pub stored : Monitor
stored = record {
  id = codes "m";
  url = codes "http://fixture:4173/product";
  intent = codes "watch the black headphones";
  name = none;
  status = MonitorStatus.active;
  condition = none;
  interval_minutes = none;
  next_run_at = none;
  current_revision_id = none;
  current_generation = none;
  latest_observation = none;
  observations = none;
  revisions = some (revision (codes "a") 1 ∷ revision (codes "b") 2 ∷ []);
  executions = none;
  created_at = codes "1";
  updated_at = none;
}

abbrev answer : MonitorAnswer
answer =
    nested stored none none
      (some (observation (codes "x") (codes "3") ∷ observation (codes "y") (codes "5") ∷ []))

latest_shown :
    (normalize_monitor time answer).latest_observation ≡ some (observation (codes "y") (codes "5"))
unfolding normalize_monitor sort_by insert_by
latest_shown = refl

normalize_monitor-shows_example :
    IsLatest time none
      (normalize_monitor time answer).latest_observation
      (or_empty (observations_of answer))
    × IsCurrent none
        (or_empty (revisions_of answer))
        (normalize_monitor time answer).current_generation
normalize_monitor-shows_example = normalize_monitor-shows time answer ((3, refl), ((5, refl), tt))

-- Numerals of digits alone.
abbrev digits_value : Text → Option ℕ
digits_value t = if all is_digit t then some (value_from 0 t) else none

pub digits_value-show : (n : ℕ) → digits_value (show n) ≡ some n
digits_value-show n = rw (show-digits n) (ap some (value-show n))

abbrev numerals : Numerals
numerals = record {
  whole = digits_value;
  is_measure = all is_digit;
  whole_show = λ n h. digits_value-show n;
  measure_show = λ n h. show-digits n;
}

abbrev report : ExecutionResult
report =
    record (bare_result config (job repair) none Status.succeeded [] 2
      ((codes "total", 480) ∷ [])) {
        cache_status = some CacheStatus.miss;
        repair_source = some Source.stagehand;
      }

abbrev execution : Execution
execution = record {
  summary = record {
    id = codes "e";
    monitor_id = none;
    revision_id = none;
    kind = codes "repair";
    state = ExecutionState.succeeded;
    requested_generation = none;
    attempt = none;
    provider = none;
    started_at = none;
    completed_at = none;
    created_at = codes "1";
    duration_ms = none;
    failure_classification = none;
  };
  observation = none;
  artifacts = none;
  steps = none;
  error = none;
  browser_session_url = none;
  trace_id = none;
  diagnostics = none;
}

abbrev kept : Members
kept = member (codes "diagnostics") (obj (encoded (result_body report).diagnostics)) end

abbrev raw_execution : RawExecution
raw_execution = record { execution = execution; result = some (obj kept); diagnostics = none }

small : IsSmall (result_body report).diagnostics
unfolding result_body
small = omega arith

normalize_execution-result_body_example :
    (normalize_execution time numerals raw_execution).diagnostics
    ≡ some (shown (result_body report).diagnostics)
unfolding result_body get text_eq
normalize_execution-result_body_example =
    normalize_execution-result_body time numerals report raw_execution kept small refl refl

abbrev pub browser : Browser
browser = record {
  base = [];
  fetch = λ q. answered (record {
    is_ok = true;
    status = 200;
    content_type = some (codes "application/json");
    json = answered null;
    text = answered [];
  });
  encode = λ t. t;
  time = time;
  numerals = numerals;
  uuid = codes "u";
  now = codes "9";
  as_monitors = λ j. array [];
  as_monitor = λ j. answer;
  as_created = λ j. CreateAnswer.bare stored none;
  as_check = λ j. with_id (codes "e");
  as_execution = λ j. raw_execution;
}

monitor_read : get_monitor browser (codes "m") ≡ answered (normalize_monitor time answer)
unfolding get_monitor request with_content_type has_header read_body contains starts_with
monitor_read = refl

get_review-IsReview_example :
    ((review : Review) × (get_review browser (codes "m") (codes "b") ≡ answered review)
      × IsReview (normalize_monitor time answer) (codes "b") review)
    ⊎ ((find (λ r. text_eq r.id (codes "b")) (or_empty (normalize_monitor time answer).revisions)
          ≡ none)
        × (get_review browser (codes "m") (codes "b")
            ≡ refused (api (codes "Revision was not found on this monitor") 404 none)))
get_review-IsReview_example =
    get_review-IsReview browser (codes "m") (codes "b") (normalize_monitor time answer) monitor_read
