-- ===== src/Queue/Delivery.antt =====
-- `processDelivery` and `executeWithJobTimeout` of worker/src/queue.ts, and the schema of a job in
-- worker/src/contracts.ts. The control plane and the executor are parameters; what is done to the
-- message, to the timers and to the services is kept as a list of events, last first. Log lines
-- are left out.
pub mod Courses
pub mod Laws
pub mod Redelivery
use price_scout.Base.{ℕ, Bool, true, false, ◌&&◌, Option, none, some, List, [], ◌∷◌, length, leb}
use price_scout.Base.{if◌then◌else◌}
use price_scout.Base.Text.{Text, codes, truthy}
use price_scout.Base.Effects.{Result, ok, err, Failure}
use price_scout.Contracts.{
  State, queued, running, succeeded, failed, blocked, needs_review, ExecutionInput, ExecutionResult,
}
use price_scout.Outside.{Json, str, obj, Members}
use price_scout.Extract.Product.{get}
use price_scout.Queue.Backoff.{backoff, trace_id}

-- `queueJobSchema`
pub record Job : Type 0 where
  pub execution_id : Text
  pub traceparent : Option Text

abbrev id_of : Option Json → Option Text
id_of (some (str t)) = if truthy t then some t else none
id_of _ = none

-- An optional property: what it parses to, if it is valid.
abbrev traceparent_of : Option Json → Option (Option Text)
traceparent_of none = some none
traceparent_of (some (str t)) = if leb (length t) 512 then some (some t) else none
traceparent_of (some _) = none

abbrev job_of : Option Text → Option (Option Text) → Option Job
job_of (some id) (some trace) = some (record { execution_id = id; traceparent = trace })
job_of _ _ = none

unfoldable pub parse_job : Json → Option Job
unfolding get
parse_job (obj ms) =
    job_of (id_of (get (codes "executionId") ms)) (traceparent_of (get (codes "traceparent") ms))
parse_job _ = none

-- `terminalExecutionStates.has(state)`
abbrev pub is_terminal : State → Bool
is_terminal queued = false
is_terminal running = false
is_terminal _ = true

pub data Event : Type 0 where
  heartbeat_started heartbeat_stopped : Event
  timer_started timer_cleared : Event
  asked : Text → Event
  executed : ExecutionInput → Event
  posted : Text → ExecutionResult → Event
  acked termed : Event
  naked : ℕ → Event

-- `message.json()` is `none` where it throws.
pub record Message : Type 0 where
  pub body : Option Json
  pub redelivery_count : ℕ

pub record Services : Type 1 where
  pub World : Type 0
  pub input : Text → World → Result ExecutionInput × World
  pub execute : ExecutionInput → World → Result ExecutionResult × World
  pub result : Text → ExecutionResult → World → Result (Unit {0}) × World

abbrev pub with_trace : Option Text → ExecutionResult → ExecutionResult
with_trace none r = r
with_trace (some t) r = record r { trace_id = some t }

abbrev pub parsed_body : Option Json → Option Job
parsed_body none = none
parsed_body (some j) = parse_job j

module _ (v : Services) where
  pub record St : Type 0 where
    pub world : v.World
    pub events : List Event

  abbrev pub M : Type 0 → Type 0
  M A = St → Result A × St

module _ {v : Services} where
  module _ {A B : Type 0} where
    abbrev pub resume : (A → M v B) → Result A → M v B
    resume f (ok a) s = f a s
    resume f (err e) s = (err e, s)

    infixl 5 ◌>>=◌
    abbrev pub ◌>>=◌ : M v A → (A → M v B) → M v B
    ◌>>=◌ m f s = let (r, s') = m s in resume f r s'

  module _ {B : Type 0} where
    infixl 5 ◌>>◌
    abbrev pub ◌>>◌ : M v (Unit {0}) → M v B → M v B
    m >> k = m >>= λ _. k

  abbrev pub emit : Event → St v → St v
  emit e s = record s { events = e ∷ s.events }

  abbrev pub tell : Event → M v (Unit {0})
  tell e s = (ok tt, emit e s)

  -- A call of a service, put on record.
  abbrev pub serve : {A : Type 0} → Event → (v.World → Result A × v.World) → M v A
  serve e f s = let (r, w) = f s.world in (r, record { world = w; events = e ∷ s.events })

  -- The timer is cleared however the executor ends.
  unfoldable pub execute_with_job_timeout : ExecutionInput → M v ExecutionResult
  execute_with_job_timeout input s =
      let (r, t) = serve (executed input) (v.execute input) (emit timer_started s) in
      (r, emit timer_cleared t)

  -- The `try` block.
  unfoldable pub handle : Job → M v (Unit {0})
  handle job = do
    input ← serve (asked job.execution_id) (v.input job.execution_id)
    if is_terminal input.state then tell acked else (do
      execution ← execute_with_job_timeout input
      let result = with_trace (trace_id job.traceparent) execution
      serve (posted job.execution_id result) (v.result job.execution_id result)
      tell acked)

  -- The `catch` block.
  abbrev pub settle : ℕ → Result (Unit {0}) → St v → St v
  settle count (ok _) s = s
  settle count (err e) s = emit (naked (backoff count)) s

  unfoldable pub deliver_job : ℕ → Job → St v → St v
  deliver_job count job s =
      let (r, t) = handle job (emit heartbeat_started s) in
      emit heartbeat_stopped (settle count r t)

  abbrev pub deliver_parsed : ℕ → Option Job → St v → St v
  deliver_parsed count none s = emit termed s
  deliver_parsed count (some job) s = deliver_job count job s

  -- Text that is no JSON and JSON that is no job are terminated alike.
  unfoldable pub process_delivery : Message → St v → St v
  process_delivery message s = deliver_parsed message.redelivery_count (parsed_body message.body) s
