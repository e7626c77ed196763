-- ===== src/Queue/Pull.antt =====
-- The loop of `WorkerQueue.run` of worker/src/queue.ts, which pulls one message at a time. `stop`
-- runs beside it; what it finds of the flag `stopping` is part of what it meets.
pub mod Laws
use price_scout.Base.{ℕ, Bool, true, false, not, List, [], ◌∷◌, ◌++◌, if◌then◌else◌}
use price_scout.Base.Effects.{Failure}
use price_scout.Queue.Delivery.{Message}

-- What `next` gives: a message, `null`, or an error.
pub data Pulled : Type 0 where
  got : Message → Pulled
  nothing : Pulled
  broken : Failure → Pulled

-- A round of the loop: what `next` gives, and the flag `stopping` when it does and when the round
-- is over. The flag is never reset.
abbrev pub Round : Type 0
Round = Pulled × Bool × Bool

pub data Outcome : Type 0 where
  processed : Message → Outcome  -- by `processDelivery`
  returned : ℕ → Message → Outcome  -- by `nak` with a delay
  thrown : Failure → Outcome

-- What a round does, and whether the loop goes on.
abbrev pub act_on : Round → List Outcome × Bool
act_on (broken e, true, after) = ([], false)
act_on (broken e, false, after) = (thrown e ∷ [], false)
act_on (nothing, stopping, after) = ([], not after)
act_on (got m, true, after) = (returned 1000 m ∷ [], false)
act_on (got m, false, after) = (processed m ∷ [], not after)

-- The outcomes in their order, for a loop that meets the rounds as long as it runs.
unfoldable pub pull_loop : List Round → List Outcome
pull_loop [] = []
pull_loop (r ∷ rounds) =
    let (outcomes, again) = act_on r in
    let later = pull_loop rounds in if again then outcomes ++ later else outcomes
