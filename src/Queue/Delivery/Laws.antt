-- ===== src/Queue/Delivery/Laws.antt =====
-- What one delivery tells its message.
use price_scout.Base.{ℕ, Bool, true, false, ◌≡◌, refl, ◌⊎◌, inl, inr, ◌↔◌}
use price_scout.Base.{Option, none, some, List, [], ◌∷◌, ◌++◌, keep, arith}
use price_scout.Base.Effects.{ok, err, Failure}
use mathlib.Core.Path.{subst}
use price_scout.Contracts.{ExecutionInput, ExecutionResult}
use price_scout.Queue.Backoff.{backoff}
use price_scout.Queue.Delivery.{
  Job, is_terminal, Event, acked, termed, naked, Message, Services, St, parsed_body,
  process_delivery,
}
use price_scout.Queue.Delivery.Courses.{
  report, Course, poison, no_input, duplicate, no_execution, unreported, completed, delivery-Course,
}

abbrev pub is_disposition : Event → Bool
is_disposition acked = true
is_disposition termed = true
is_disposition (naked delay) = true
is_disposition _ = false

-- What was told to the message, last first.
abbrev pub dispositions : List Event → List Event
dispositions = keep is_disposition

-- The execution needs no further delivery: the control plane holds it for finished, or has taken
-- the result of running it.
abbrev pub Earned : (v : Services) → v.World → Job → Type 0
Earned v w job =
    (input : ExecutionInput) × ((v.input job.execution_id w).0 ≡ ok input)
    × ((is_terminal input.state ≡ true)
        ⊎ ((is_terminal input.state ≡ false)
            × ((execution : ExecutionResult) × ((v.execute input (v.input job.execution_id w).1).0
                  ≡ ok execution)
                × ((report v w job input execution).0 ≡ ok tt))))

-- What is told to a message whose body parses to `parsed`.
pub record Settles (v : Services) (w : v.World) (count : ℕ) (parsed : Option Job) (d : Event)
    : Type 0 where
  pub termed_iff : (d ≡ termed) ↔ (parsed ≡ none)
  pub acked_iff : (d ≡ acked) ↔ ((job : Job) × (parsed ≡ some job) × Earned v w job)
  pub naked_delay : (delay : ℕ) → d ≡ naked delay → delay ≡ backoff count
  pub one_of_three : (d ≡ acked) ⊎ (d ≡ termed) ⊎ (d ≡ naked (backoff count))

-- Deliveries that leave something to do.
module _ (v : Services) (w : v.World) (job : Job) where
  not_run :
      (input : ExecutionInput)
      → (v.input job.execution_id w).0 ≡ ok input
      → is_terminal input.state ≡ false
      → (e : Failure) → (v.execute input (v.input job.execution_id w).1).0 ≡ err e
      → ¬ Earned v w job
  not_run input got open_state e failed (input', got', h) = elim h [
    | inl done ↦ cc
    | inr (running, (x, runs, taken)) ↦ cc
  ]

  not_taken :
      (input : ExecutionInput)
      → (v.input job.execution_id w).0 ≡ ok input
      → is_terminal input.state ≡ false
      → (execution : ExecutionResult)
      → (v.execute input (v.input job.execution_id w).1).0 ≡ ok execution
      → (e : Failure) → (report v w job input execution).0 ≡ err e
      → ¬ Earned v w job
  not_taken input got open_state execution run e refused (input', got', h) = elim h [
    | inl done ↦ cc
    | inr (running, (x, runs, taken)) ↦ cc
  ]

module _ {v : Services} {w : v.World} {count : ℕ} where
  acked-Settles : (job : Job) → Earned v w job → Settles v w count (some job) acked
  acked-Settles job earned = record {
    termed_iff = (λ e. cc, λ e. cc);
    acked_iff = (λ e. (job, refl, earned), λ h. refl);
    naked_delay = λ t e. cc;
    one_of_three = inl refl;
  }

  naked-Settles :
      (job : Job) → ¬ Earned v w job → Settles v w count (some job) (naked (backoff count))
  naked-Settles job owed = record {
    termed_iff = (λ e. cc, λ e. cc);
    acked_iff = (
      λ e. cc,
      λ (other, same, earned).
          let e : other ≡ job = cc in absurd (owed (subst (Earned v w) e earned)),
    );
    naked_delay = λ t e. cc;
    one_of_three = inr (inr refl);
  }

  -- The events of a course hold one disposition.
  Course-Settles :
      {parsed : Option Job} {added : List Event}
      → Course v w count parsed added
      → (d : Event) × Settles v w count parsed d × (dispositions added ≡ d ∷ [])
  Course-Settles poison = (
    termed,
    record {
      termed_iff = (λ e. refl, λ e. refl);
      acked_iff = (λ e. cc, λ h. cc (h.1));
      naked_delay = λ t e. cc;
      one_of_three = inr (inl refl);
    },
    refl,
  )
  Course-Settles (no_input {job} e failed) = (_, naked-Settles job (λ h. cc (h.1)), refl)
  Course-Settles (duplicate {job} input got done) =
      (_, acked-Settles job (input, got, inl done), refl)
  Course-Settles (no_execution {job} input got open_state e failed) =
      (_, naked-Settles job (not_run v w job input got open_state e failed), refl)
  Course-Settles (unreported {job} input got open_state execution run e refused) =
      (_, naked-Settles job (not_taken v w job input got open_state execution run e refused), refl)
  Course-Settles (completed {job} input got open_state execution run taken) =
      (_, acked-Settles job (input, got, inr (open_state, (execution, run, taken))), refl)

dispositions-append : (l m : List Event) → dispositions (l ++ m) ≡ dispositions l ++ dispositions m
dispositions-append [] m = refl
dispositions-append (e ∷ l) m = ground (arith, dispositions-append l m)

-- Every delivery tells its message exactly one thing. It terminates the message exactly if the
-- body is no job, acknowledges it only if the execution needs no further delivery, and otherwise
-- asks for it again after the delay of its redelivery count.
pub delivery-Settles_once :
    (v : Services) (message : Message) (s : St v)
    → (d : Event) × Settles v s.world message.redelivery_count (parsed_body message.body) d
      × (dispositions (process_delivery message s).events ≡ d ∷ dispositions s.events)
delivery-Settles_once v message s =
    let (added, course, events) = delivery-Course v message s in
    let (d, settles, alone) = Course-Settles course in
    (d, settles, rw (events, dispositions-append added s.events, alone))
