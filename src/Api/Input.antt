-- ===== src/Api/Input.antt =====
-- `ControlPlaneClient.input` of worker/src/api.ts: the answer of the control plane, brought into the
-- shape that the worker's schema reads. The schema and the fetch are parameters. A property whose
-- value is `undefined` is left out, which the schema does not tell apart.
pub mod Laws
use price_scout.Base.{Bool, true, false, not, ◌&&◌, ◌||◌, Option, none, some, List, [], ◌∷◌, ◌++◌}
use price_scout.Base.{if◌then◌else◌}
use price_scout.Base.Text.{Text, codes, text_eq, truthy}
use price_scout.Base.Effects.{Result, ok, err, ◌>>=◌, plain, msg}
use price_scout.Contracts.{CompilerMode, auto, scripted, live, ExecutionInput}
use price_scout.Config.{Config}
use price_scout.Outside.{
  Json, null, bool, num, str, arr, obj, Elems, nil, cons, Members, end, member,
}
use price_scout.Extract.Product.{get, coalesce}

-- `value?.key`
abbrev pub at : Option Json → Text → Option Json
at (some (obj ms)) key = get key ms
at _ key = none

-- `Boolean(value)`
abbrev pub is_truthy : Option Json → Bool
is_truthy none = false
is_truthy (some null) = false
is_truthy (some (bool b)) = b
is_truthy (some (num t)) = not (text_eq t (codes "0"))
is_truthy (some (str s)) = truthy s
is_truthy (some _) = true

-- `typeof value === "object"`
abbrev pub is_object : Option Json → Bool
is_object (some null) = true
is_object (some (arr vs)) = true
is_object (some (obj ms)) = true
is_object _ = false

-- `left || right`, and `value ?? undefined`
abbrev pub or_json : Option Json → Json → Option Json
or_json left right = if is_truthy left then left else some right

abbrev pub defined : Option Json → Option Json
defined v = coalesce v none

abbrev pub put : Text → Option Json → Members → Members
put key none more = more
put key (some v) more = member key v more

abbrev pub is_end_state : Option Json → Bool
is_end_state (some (str s)) =
    text_eq s (codes "succeeded")
    || text_eq s (codes "failed")
    || text_eq s (codes "blocked")
    || text_eq s (codes "needs_review")
is_end_state _ = false

abbrev pub mode_text : CompilerMode → Text
mode_text auto = codes "auto"
mode_text scripted = codes "scripted"
mode_text live = codes "live"

module _ (raw : Members) where
  abbrev pub execution_at : Text → Option Json
  execution_at = at (get (codes "execution") raw)

  abbrev pub monitor_at : Text → Option Json
  monitor_at = at (get (codes "monitor") raw)

  -- The constant `terminal`.
  abbrev pub is_terminal : Bool
  is_terminal = is_end_state (execution_at (codes "state"))

  abbrev pub plan_of : Option Json
  plan_of = coalesce (get (codes "plan") raw) (at (get (codes "revision") raw) (codes "plan"))

  abbrev pub revision_object : Members
  revision_object = put (codes "id") (at (get (codes "revision") raw) (codes "id")) (
      put (codes "generation") (at (get (codes "revision") raw) (codes "generation"))
        (put (codes "plan") plan_of end))

  abbrev pub revision_of : Option Json
  revision_of =
      if is_truthy (get (codes "revision") raw) && not is_terminal
      then some (obj revision_object)
      else none

  abbrev pub execution_object : Members
  execution_object = put (codes "id") (execution_at (codes "id")) (
      put (codes "kind") (execution_at (codes "kind")) (
        put (codes "state") (coalesce (execution_at (codes "state")) (some (str (codes "running"))))
          (put (codes "attempt") (or_json (execution_at (codes "attempt")) (num (codes "1"))) (
            put (codes "failedGeneration") (defined (execution_at (codes "requestedGeneration")))
              end))))

  abbrev pub condition_of : Option Json
  condition_of =
      if not is_terminal
        && is_truthy (monitor_at (codes "condition"))
        && is_object (monitor_at (codes "condition"))
      then monitor_at (codes "condition")
      else none

  abbrev pub monitor_object : Members
  monitor_object = put (codes "id") (monitor_at (codes "id")) (
      put (codes "url") (monitor_at (codes "url")) (
        put (codes "intent") (monitor_at (codes "intent"))
          (put (codes "condition") condition_of end)))

  -- The constant `normalized`.
  unfoldable pub normalized : Config → Members
  normalized config = put (codes "execution") (some (obj execution_object)) (
      put (codes "monitor") (some (obj monitor_object)) (
        put (codes "revision") revision_of (
          put (codes "compilerMode")
            (coalesce (get (codes "compilerMode") raw)
              (some (str (mode_text config.inference_mode))))
            end)))

pub record InputReply : Type 0 where
  pub is_ok : Bool
  pub status : Text
  pub text : Result Text
  pub json : Result Json

-- The properties of `raw`, which only `null` refuses to be asked for.
abbrev pub members_of_answer : Json → Result Members
members_of_answer null = err (plain (msg "Cannot read properties of null (reading 'execution')"))
members_of_answer (obj ms) = ok ms
members_of_answer _ = ok end

-- The request, without the abort signal: its address and headers.
abbrev pub InputRequest : Type 0
InputRequest = Text × List (Text × Text)

module _ (encode : Text → Text) (schema : Json → Result ExecutionInput) (config : Config) where
  -- `encode` is `encodeURIComponent`.
  abbrev pub input_request : Text → InputRequest
  input_request id = (
    config.internal_api_url ++ codes "/internal/v1/executions/" ++ encode id ++ codes "/input",
    (codes "X-Worker-Token", config.worker_token) ∷ [],
  )

  abbrev pub read_json : InputReply → Result Json
  read_json reply =
      if reply.is_ok
      then reply.json
      else reply.text >>= λ text.
          err (plain (msg "Control plane input failed (" ++ reply.status ++ msg "): " ++ text))

  abbrev pub read_answer : Json → Result ExecutionInput
  read_answer answer = members_of_answer answer >>= λ raw. schema (obj (normalized raw config))

  -- `ControlPlaneClient.input`, for a fetch that answers the request or throws.
  unfoldable pub input : (InputRequest → Result InputReply) → Text → Result ExecutionInput
  input fetch id = fetch (input_request id) >>= read_json >>= read_answer
