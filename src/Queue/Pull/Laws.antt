-- ===== src/Queue/Pull/Laws.antt =====
-- What becomes of the messages that are pulled.
use price_scout.Base.{Bool, true, false, ◌≡◌, refl, ap, ◌⊎◌, inl, inr, List, [], ◌∷◌, if◌then◌else◌}
use price_scout.Queue.Delivery.{Message}
use price_scout.Queue.Pull.{
  Pulled, got, nothing, broken, Round, Outcome, processed, returned, thrown, act_on, pull_loop,
}

-- The messages of the rounds that the loop meets, which ends with one that stops it.
unfoldable pub pulled_messages : List Round → List Message
pulled_messages [] = []
pulled_messages (r ∷ rounds) =
    let later = pulled_messages rounds in with_message r.0 (if (act_on r).1 then later else [])
  where
    with_message : Pulled → List Message → List Message
    with_message (got m) later = m ∷ later
    with_message _ later = later

abbrev pub settled_messages : List Outcome → List Message
settled_messages [] = []
settled_messages (processed m ∷ l) = m ∷ settled_messages l
settled_messages (returned delay m ∷ l) = m ∷ settled_messages l
settled_messages (thrown e ∷ l) = settled_messages l

-- A message was pulled and processed in a round in which the worker was not stopping.
abbrev pub ProcessedIn : List Round → Message → Type 0
ProcessedIn [] m = ⊥
ProcessedIn (r ∷ rounds) m = ((after : Bool) × (r ≡ (got m, false, after))) ⊎ ProcessedIn rounds m

abbrev pub OnlyRunning : List Round → List Outcome → Type 0
OnlyRunning rounds [] = Unit
OnlyRunning rounds (processed m ∷ l) = ProcessedIn rounds m × OnlyRunning rounds l
OnlyRunning rounds (_ ∷ l) = OnlyRunning rounds l

later_rounds :
    (r : Round) (rounds : List Round) (l : List Outcome)
    → OnlyRunning rounds l
    → OnlyRunning (r ∷ rounds) l
later_rounds r rounds [] h = tt
later_rounds r rounds (processed m ∷ l) (h, k) = (inr h, later_rounds r rounds l k)
later_rounds r rounds (returned d m ∷ l) h = later_rounds r rounds l h
later_rounds r rounds (thrown e ∷ l) h = later_rounds r rounds l h

-- Every message that is pulled is processed or given back, once and in its order, and none is
-- processed that was pulled when the worker was stopping.
pub pull_loop_settles :
    (rounds : List Round)
    → (settled_messages (pull_loop rounds) ≡ pulled_messages rounds)
      × OnlyRunning rounds (pull_loop rounds)
unfolding pull_loop pulled_messages
pull_loop_settles [] = (refl, tt)
pull_loop_settles ((broken e, true, after) ∷ rounds) = (refl, tt)
pull_loop_settles ((broken e, false, after) ∷ rounds) = (refl, tt)
pull_loop_settles ((nothing, stopping, true) ∷ rounds) = (refl, tt)
pull_loop_settles ((nothing, stopping, false) ∷ rounds) =
    let (same, running) = pull_loop_settles rounds in
    (same, later_rounds (nothing, stopping, false) rounds (pull_loop rounds) running)
pull_loop_settles ((got m, true, after) ∷ rounds) = (refl, tt)
pull_loop_settles ((got m, false, true) ∷ rounds) = (refl, (inl (true, refl), tt))
pull_loop_settles ((got m, false, false) ∷ rounds) =
    let (same, running) = pull_loop_settles rounds in
    (
      ap (λ l. m ∷ l) same,
      (inl (false, refl), later_rounds (got m, false, false) rounds (pull_loop rounds) running),
    )
