-- ===== src/Web/Client/Operations.antt =====
-- The object `api` of web/src/api/client.ts, but for `getReview`.
use price_scout.Base.{Bool, false, Option, none, some, List, [], ◌∷◌, ◌++◌}
use price_scout.Base.{if◌then◌else◌}
use price_scout.Base.Text.{Text, codes, show}
use mathlib.Core.Option
use price_scout.Outside.{Json, num, str, bool, obj, Members, end, member}
use price_scout.Api.Input.{put}
use price_scout.Web.Types.{
  Monitor, MonitorRevision, PriceCondition, CreateMonitorInput, CreateMonitorResult, Execution,
  healthy, unhealthy, ready, not_ready, ServiceStatus,
}
use price_scout.Web.Client.Request.{
  api, Answer, answered, refused, ◌>>=◌, and_then, Request, Response, plain_get, request,
}
use price_scout.Web.Client.Normalize.{
  Dates, MonitorAnswer, normalize_monitor, CreateAnswer, create_result,
}
use price_scout.Web.Client.Diagnostics.{Numerals, RawExecution, normalize_execution}

-- The forms of the answers for the monitors and for a check.
pub data MonitorsAnswer : Type 0 where
  array items monitors : List Monitor → MonitorsAnswer

pub data CheckAnswer : Type 0 where
  with_execution with_id : Text → CheckAnswer

-- What the browser gives: the fetch, `encodeURIComponent`, dates and numbers, a fresh UUID and the
-- present date; and an answer read at the type that the code declares for it.
pub record Browser : Type 0 where
  pub base : Text
  pub fetch : Request → Answer Response
  pub encode : Text → Text
  pub time : Dates
  pub numerals : Numerals
  pub uuid : Text
  pub now : Text
  pub as_monitors : Json → MonitorsAnswer
  pub as_monitor : Json → MonitorAnswer
  pub as_created : Json → CreateAnswer
  pub as_check : Json → CheckAnswer
  pub as_execution : Json → RawExecution

abbrev listed : MonitorsAnswer → List Monitor
listed (array l) = l
listed (items l) = l
listed (monitors l) = l

abbrev checked : CheckAnswer → Text
checked (with_execution id) = id
checked (with_id id) = id

abbrev variant_members : List (Text × Text) → Members
variant_members [] = end
variant_members ((key, v) ∷ more) = member key (str v) (variant_members more)

abbrev condition_json : PriceCondition → Json
condition_json c = obj (
    put (codes "priceBelowMinor") (Option.map (λ n. num (show n)) c.price_below_minor) (
      put (codes "currency") (Option.map str c.currency) (
        member (codes "requireInStock") (bool c.require_in_stock)
          (member (codes "requestedVariant") (obj (variant_members c.requested_variant)) end))))

module _ (b : Browser) where
  abbrev pub send : Request → Answer Json
  send = request b.base b.fetch

  abbrev pub monitor_path : Text → Text
  monitor_path id = codes "/api/v1/monitors/" ++ b.encode id

  abbrev pub post : Text → Option Json → Request
  post path body = record { path = path; method = codes "POST"; headers = []; body = body }

  abbrev shown : Json → Monitor
  shown v = normalize_monitor b.time (b.as_monitor v)

  unfoldable pub list_monitors : Answer (List Monitor)
  list_monitors =
      and_then (λ v. listed (b.as_monitors v)) (send (plain_get (codes "/api/v1/monitors")))

  unfoldable pub get_monitor : Text → Answer Monitor
  get_monitor id = and_then shown (send (plain_get (monitor_path id)))

  unfoldable pub create_monitor : CreateMonitorInput → Answer CreateMonitorResult
  create_monitor input =
      and_then (λ v. create_result (b.as_created v))
        (send (
          post (codes "/api/v1/monitors") (
            some (
              obj (
                member (codes "url") (str input.url) (
                  member (codes "intent") (str input.intent)
                    (member (codes "intervalMinutes") (num (show input.interval_minutes)) end)))))))

  unfoldable pub update_monitor : Text → Json → Answer Monitor
  update_monitor id input = and_then shown (
      send (record {
        path = monitor_path id;
        method = codes "PATCH";
        headers = [];
        body = some input;
      }))

  unfoldable pub confirm_monitor : Text → MonitorRevision → Option PriceCondition → Answer Monitor
  confirm_monitor id revision condition = and_then shown (
      send (
        post (monitor_path id ++ codes "/confirm") (
          some (
            obj (
              member (codes "revisionId") (str revision.id)
                (put (codes "condition") (Option.map condition_json condition) end))))))

  unfoldable pub run_check : Text → Answer Text
  run_check id =
      and_then (λ v. checked (b.as_check v))
        (send (record {
          path = monitor_path id ++ codes "/checks";
          method = codes "POST";
          headers = (codes "Idempotency-Key", b.uuid) ∷ [];
          body = none;
        }))

  unfoldable pub get_execution : Text → Answer Execution
  get_execution id =
      and_then (λ v. normalize_execution b.time b.numerals (b.as_execution v))
        (send (plain_get (codes "/api/v1/executions/" ++ b.encode id)))

  unfoldable pub review_revision : Text → Text → Bool → Answer Monitor
  review_revision monitor_id revision_id accepts = and_then shown (
      send (
        post
          (monitor_path monitor_id
            ++ codes "/reviews/"
            ++ b.encode revision_id
            ++ codes "/"
            ++ (if accepts then codes "accept" else codes "reject"))
          none))

  -- The path is fetched directly, and an error counts as `false`.
  abbrev is_up : Answer Response → Bool
  is_up (answered response) = response.is_ok
  is_up (refused e) = false

  abbrev fetch_at : Text → Answer Response
  fetch_at path = b.fetch (plain_get (b.base ++ path))

  unfoldable pub get_service_status : ServiceStatus
  get_service_status = record {
    health = if is_up (fetch_at (codes "/healthz")) then healthy else unhealthy;
    ready = if is_up (fetch_at (codes "/readyz")) then ready else not_ready;
    checked_at = b.now;
  }

  abbrev metrics_text : Response → Answer Text
  metrics_text response =
      if response.is_ok
      then response.text
      else refused (api (codes "Metrics endpoint is unavailable") response.status none)

  unfoldable pub get_metrics : Answer Text
  get_metrics = fetch_at (codes "/metrics") >>= metrics_text
