-- ===== src/Queue/Delivery/Redelivery.antt =====
-- The stream redelivers a message until it is acknowledged or terminated (`max_deliver: -1` in
-- `ensureDurableConsumer`), each time with a higher redelivery count.
use price_scout.Base.{ℕ, zero, suc, ◌-◌, ◌≤◌, ◌<◌, Bool, true, false, ◌≡◌, refl, ◌⊎◌, inl, inr}
use price_scout.Base.{Option, some, List, ◌∷◌, head, arith, Bool-cases}
use price_scout.Base.Effects.{Result-cases}
use price_scout.Contracts.{ExecutionInput, ExecutionResult}
use price_scout.Queue.Backoff.{trace_id}
use price_scout.Queue.Delivery.{
  Job, Event, acked, naked, Message, Services, St, handle, execute_with_job_timeout, deliver_job,
  parsed_body, process_delivery, is_terminal, with_trace,
}
use price_scout.Queue.Delivery.Laws.{Earned, dispositions, delivery-Settles_once}

abbrev again : Option Event → Bool
again (some (naked delay)) = true
again _ = false

module _ {v : Services} where
  -- The state after at most so many deliveries.
  unfoldable pub redeliver : ℕ → Message → St v → St v
  redeliver zero m s = s
  redeliver (suc n) m s =
      let t = process_delivery m s in
      elim (again (head (dispositions t.events))) [
        | true ↦ redeliver n (record m { redelivery_count = suc m.redelivery_count }) t
        | false ↦ t
      ]

module _ (v : Services) (n : ℕ) (m : Message) (s : St v) where
  redeliver-stops :
      again (head (dispositions (process_delivery m s).events)) ≡ false
      → redeliver (suc n) m s ≡ process_delivery m s
  unfolding redeliver
  redeliver-stops e = ground arith

  redeliver-again :
      again (head (dispositions (process_delivery m s).events)) ≡ true
      → redeliver (suc n) m s
        ≡ redeliver n
            (record m { redelivery_count = suc m.redelivery_count })
            (process_delivery m s)
  unfolding redeliver
  redeliver-again e = ground arith

-- An outage of the services that ends: `left` falls with every question to the control plane and
-- rises with no call, and when it is over the execution is taken.
pub record Recovers (v : Services) (job : Job) : Type 0 where
  pub left : v.World → ℕ
  pub asked_less : (w : v.World) → left (v.input job.execution_id w).1 ≤ left w - 1
  pub executed_less : (i : ExecutionInput) (w : v.World) → left (v.execute i w).1 ≤ left w
  pub posted_less :
      (r : ExecutionResult) (w : v.World) → left (v.result job.execution_id r w).1 ≤ left w
  pub over : (w : v.World) → left w ≡ 0 → Earned v w job

again-naked :
    {l rest : List Event} {d : Event} {delay : ℕ}
    → l ≡ d ∷ rest
    → d ≡ naked delay
    → again (head l) ≡ true
again-naked e f = rw (e, f) refl

zero_or_more : (n : ℕ) → (n ≡ 0) ⊎ (1 ≤ n)
zero_or_more n = ground arith

module _ (v : Services) (job : Job) (recovers : Recovers v job) where
  open recovers use {left, asked_less, executed_less, posted_less, over}

  left-deliver : (count : ℕ) (s : St v) → left (deliver_job count job s).world ≤ left s.world - 1
  unfolding deliver_job handle execute_with_job_timeout
  left-deliver count s =
      let asked = asked_less s.world in
      elim (Result-cases (v.input job.execution_id s.world).0) [
        | inr (e, failed) ↦ ground arith
        | inl (input, got) ↦
            let ran = executed_less input (v.input job.execution_id s.world).1 in
            elim (Bool-cases (is_terminal input.state)) [
              | inl done ↦ ground arith
              | inr open_state ↦
                  elim (Result-cases (v.execute input (v.input job.execution_id s.world).1).0) [
                    | inr (e, failed) ↦ ground arith
                    | inl (execution, run) ↦
                        let told =
                          posted_less (with_trace (trace_id job.traceparent) execution)
                            (v.execute input (v.input job.execution_id s.world).1).1 in
                        elim (Result-cases
                          (v.result job.execution_id
                            (with_trace (trace_id job.traceparent) execution)
                            (v.execute input (v.input job.execution_id s.world).1).1).0) [
                              | inr (e, refused) ↦ ground arith
                              | inl (u, taken) ↦ ground arith
                            ]
                  ]
            ]
      ]

  -- Once the outage is over, a delivery acknowledges.
  acked-over :
      (m : Message) (s : St v)
      → parsed_body m.body ≡ some job
      → left s.world ≡ 0
      → head (dispositions (process_delivery m s).events) ≡ some acked
  acked-over m s valid none_left =
      let (d, settles, one) = delivery-Settles_once v m s in
      let acks = settles.acked_iff.1 (job, valid, over s.world none_left) in cc

  left-process :
      (m : Message) (s : St v)
      → parsed_body m.body ≡ some job
      → left (process_delivery m s).world ≤ left s.world - 1
  unfolding process_delivery
  left-process m s valid = rw valid (left-deliver m.redelivery_count s)

  not_termed :
      (m : Message) (s : St v)
      → parsed_body m.body ≡ some job
      → again (head (dispositions (process_delivery m s).events)) ≡ false
      → head (dispositions (process_delivery m s).events) ≡ some acked
  not_termed m s valid stops =
      let (d, settles, one) = delivery-Settles_once v m s in
      elim settles.one_of_three [
        | inl acks ↦ cc
        | inr (inl terms) ↦ let absent = settles.termed_iff.0 terms in cc
        | inr (inr naks) ↦ let more = again-naked one naks in cc
      ]

  still_less :
      (m : Message) (s : St v) {n : ℕ}
      → parsed_body m.body ≡ some job
      → again (head (dispositions (process_delivery m s).events)) ≡ true
      → left (process_delivery m s).world ≤ left s.world - 1
      → left s.world < suc n
      → left (process_delivery m s).world < n
  still_less m s valid more less enough = elim (zero_or_more (left s.world)) [
    | inl none_left ↦ let acks = acked-over m s valid none_left in cc
    | inr some_left ↦ omega arith
  ]

-- A job is redelivered until it is acknowledged, and no longer than the outage lasts.
pub redeliver_acks :
    (v : Services) (job : Job) (recovers : Recovers v job)
    → (fuel : ℕ) (m : Message) (s : St v) → parsed_body m.body ≡ some job
    → recovers.left s.world < fuel
    → head (dispositions (redeliver fuel m s).events) ≡ some acked
redeliver_acks v job recovers zero m s valid enough = absurd (omega arith)
redeliver_acks v job recovers (suc n) m s valid enough =
    let less = left-process v job recovers m s valid in
    elim (Bool-cases (again (head (dispositions (process_delivery m s).events)))) [
      | inr stops ↦ rw (redeliver-stops v n m s stops) (not_termed v job recovers m s valid stops)
      | inl more ↦ rw (redeliver-again v n m s more) (
          redeliver_acks v job recovers n (record m { redelivery_count = suc m.redelivery_count })
            (process_delivery m s) valid (still_less v job recovers m s valid more less enough))
    ]
