-- ===== src/Queue/Delivery/Courses.antt =====
-- The ways a delivery can go, and what each does to the services and to the message.
use price_scout.Base.{ℕ, true, false, ◌≡◌, refl, inl, inr}
use price_scout.Base.{Option, none, some, List, [], ◌∷◌, ◌++◌, arith, Bool-cases, Option-cases}
use price_scout.Base.Effects.{Result, ok, err, Failure, Result-cases}
use price_scout.Contracts.{ExecutionInput, ExecutionResult}
use price_scout.Queue.Backoff.{backoff, trace_id}
use price_scout.Queue.Delivery.{
  Job, is_terminal, Event, heartbeat_started, heartbeat_stopped, timer_started, timer_cleared,
  asked, executed, posted, acked, termed, naked, Message, Services, St, execute_with_job_timeout,
  with_trace, handle, deliver_job, parsed_body, process_delivery,
}

-- The answer of the control plane to the result of an execution, with its trace attached.
abbrev pub report :
    (v : Services) → v.World → Job → ExecutionInput → ExecutionResult → Result (Unit {0}) × v.World
report v w job input execution =
    v.result job.execution_id (with_trace (trace_id job.traceparent) execution)
      (v.execute input (v.input job.execution_id w).1).1

-- The ways a delivery can go, with the events that it adds, last first.
pub data Course (v : Services) (w : v.World) (count : ℕ) : Option Job → List Event → Type 0 where
  poison : Course v w count none (termed ∷ [])
  no_input :
      {job : Job} (e : Failure)
      → (v.input job.execution_id w).0 ≡ err e
      → Course v w count (some job) (
          heartbeat_stopped
          ∷ naked (backoff count)
          ∷ asked job.execution_id
          ∷ heartbeat_started
          ∷ [])
  duplicate :
      {job : Job} (input : ExecutionInput)
      → (v.input job.execution_id w).0 ≡ ok input
      → is_terminal input.state ≡ true
      → Course v w count
          (some job)
          (heartbeat_stopped ∷ acked ∷ asked job.execution_id ∷ heartbeat_started ∷ [])
  no_execution :
      {job : Job} (input : ExecutionInput)
      → (v.input job.execution_id w).0 ≡ ok input
      → is_terminal input.state ≡ false
      → (e : Failure) → (v.execute input (v.input job.execution_id w).1).0 ≡ err e
      → Course v w count (some job) (
          heartbeat_stopped
          ∷ naked (backoff count)
          ∷ timer_cleared
          ∷ executed input
          ∷ timer_started
          ∷ asked job.execution_id
          ∷ heartbeat_started
          ∷ [])
  unreported :
      {job : Job} (input : ExecutionInput)
      → (v.input job.execution_id w).0 ≡ ok input
      → is_terminal input.state ≡ false
      → (execution : ExecutionResult)
      → (v.execute input (v.input job.execution_id w).1).0 ≡ ok execution
      → (e : Failure) → (report v w job input execution).0 ≡ err e
      → Course v w count (some job) (
          heartbeat_stopped
          ∷ naked (backoff count)
          ∷ posted job.execution_id (with_trace (trace_id job.traceparent) execution)
          ∷ timer_cleared
          ∷ executed input
          ∷ timer_started
          ∷ asked job.execution_id
          ∷ heartbeat_started
          ∷ [])
  completed :
      {job : Job} (input : ExecutionInput)
      → (v.input job.execution_id w).0 ≡ ok input
      → is_terminal input.state ≡ false
      → (execution : ExecutionResult)
      → (v.execute input (v.input job.execution_id w).1).0 ≡ ok execution
      → (report v w job input execution).0 ≡ ok tt
      → Course v w count (some job) (
          heartbeat_stopped
          ∷ acked
          ∷ posted job.execution_id (with_trace (trace_id job.traceparent) execution)
          ∷ timer_cleared
          ∷ executed input
          ∷ timer_started
          ∷ asked job.execution_id
          ∷ heartbeat_started
          ∷ [])

module _ (v : Services) (count : ℕ) (job : Job) (s : St v) where
  deliver-Course :
      (added : List Event) × Course v s.world count (some job) added
      × ((deliver_job count job s).events ≡ added ++ s.events)
  unfolding deliver_job handle execute_with_job_timeout
  deliver-Course = elim (Result-cases (v.input job.execution_id s.world).0) [
    | inr (e, failed) ↦ (_, no_input e failed, ground arith)
    | inl (input, got) ↦ elim (Bool-cases (is_terminal input.state)) [
      | inl done ↦ (_, duplicate input got done, ground arith)
      | inr open_state ↦
          elim (Result-cases (v.execute input (v.input job.execution_id s.world).1).0) [
            | inr (e, failed) ↦ (_, no_execution input got open_state e failed, ground arith)
            | inl (execution, run) ↦ elim (Result-cases (report v s.world job input execution).0) [
              | inr (e, refused) ↦
                  (_, unreported input got open_state execution run e refused, ground arith)
              | inl (u, taken) ↦
                  (_, completed input got open_state execution run taken, ground arith)
            ]
          ]
    ]
  ]

-- Every delivery takes one of the six courses, and adds that course's events.
pub delivery-Course :
    (v : Services) (message : Message) (s : St v)
    → (added : List Event) × Course v s.world message.redelivery_count
        (parsed_body message.body)
        added
      × ((process_delivery message s).events ≡ added ++ s.events)
unfolding process_delivery
delivery-Course v message s = elim (Option-cases (parsed_body message.body)) [
  | inl e ↦ rw e (_, poison, refl)
  | inr (job, e) ↦ rw e (deliver-Course v message.redelivery_count job s)
]
