-- ===== src/Tests/Deliveries.antt =====
-- Theorems on deliveries, with a control plane that fails twice.
use price_scout.Base.{ℕ, zero, suc, ◌-◌, ◌≤◌, ◌≡◌, refl, inr, false, none, some}
use price_scout.Base.{List, [], ◌∷◌, ◌++◌, head, arith, length, All}
use price_scout.Base.Text.{codes, text_eq}
use price_scout.Base.Effects.{Result, ok, err, plain}
use price_scout.Contracts.{ExecutionInput, check, Status}
use price_scout.Outside.{str, obj, Members, member}
use price_scout.Handler.{bare_result}
use price_scout.Base.{◌<◌, ◌*◌}
use price_scout.Handler.Failure.{safe_error, is_break}
use price_scout.Handler.Failure.Laws.{safe_error-IsShort}
use price_scout.Queue.Backoff.{backoff}
use price_scout.Queue.Backoff.Laws.{backoff_bounds}
use price_scout.Queue.Delivery.{
  Job, parse_job, parsed_body, Event, acked, Message, Services, St, process_delivery,
}
use price_scout.Queue.Delivery.Courses.{Course, delivery-Course}
use price_scout.Queue.Delivery.Laws.{Settles, dispositions, delivery-Settles_once, Earned}
use price_scout.Queue.Delivery.Redelivery.{redeliver, Recovers, redeliver_acks}
use price_scout.Tests.Shop.{job, config}

abbrev outage : ℕ → Result ExecutionInput × ℕ
outage zero = (ok (job check), 0)
outage (suc n) = (err (plain (codes "HTTP 503")), n)

abbrev services : Services
services = record {
  World = ℕ;
  input = λ id. outage;
  execute = λ i w. (ok (bare_result config i none Status.succeeded [] 0 []), w);
  result = λ id r w. (ok tt, w);
}

abbrev message : Message
message = record {
  body = some (obj (member (codes "executionId") (str (codes "run/1")) Members.end));
  redelivery_count = 0;
}

abbrev waiting : St services
waiting = record { world = 2; events = [] }

abbrev queued_job : Job
queued_job = record { execution_id = codes "run/1"; traceparent = none }

backoff_bounds_example :
    (backoff 0 ≡ 1000)
    × (2 < 5 → backoff 3 ≡ 2 * backoff 2)
    × (1000 ≤ backoff 2)
    × (backoff 2 ≤ backoff 7)
    × (backoff 7 ≤ 60000)
    × (6 ≤ 2 → backoff 2 ≡ 60000)
backoff_bounds_example = backoff_bounds 2 7 (omega arith)

delivery-Course_example :
    (added : List Event) × Course services 2 0 (parsed_body message.body) added
    × ((process_delivery message waiting).events ≡ added ++ [])
delivery-Course_example = delivery-Course services message waiting

delivery-Settles_once_example :
    (d : Event) × Settles services 2 0 (parsed_body message.body) d
    × (dispositions (process_delivery message waiting).events ≡ d ∷ [])
delivery-Settles_once_example = delivery-Settles_once services message waiting

asked_less : (w : ℕ) → (outage w).1 ≤ w - 1
asked_less zero = omega arith
asked_less (suc n) = omega arith

over : (w : ℕ) → w ≡ 0 → Earned services w queued_job
over zero e = (job check, refl, inr (refl, (_, refl, refl)))
over (suc n) e = absurd (omega arith)

abbrev recovers : Recovers services queued_job
recovers = record {
  left = λ w. w;
  asked_less = asked_less;
  executed_less = λ i w. omega arith;
  posted_less = λ r w. omega arith;
  over = over;
}

parsed : parsed_body message.body ≡ some queued_job
unfolding parse_job text_eq
parsed = refl

redeliver_acks_example : head (dispositions (redeliver 3 message waiting).events) ≡ some acked
redeliver_acks_example =
    redeliver_acks services queued_job recovers 3 message waiting parsed (omega arith)

safe_error-IsShort_example :
    (length (safe_error (plain (codes "HTTP 503"))) ≤ 1000)
    × All (λ c. is_break c ≡ false) (safe_error (plain (codes "HTTP 503")))
safe_error-IsShort_example = safe_error-IsShort (plain (codes "HTTP 503"))
