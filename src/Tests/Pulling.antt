-- ===== src/Tests/Pulling.antt =====
-- Theorems on the consumer and the pull loop, with a manager of one consumer.
use price_scout.Base.{◌≡◌, ◌⊎◌, inl, refl, true, false, Option, none, some, [], ◌∷◌}
use price_scout.Queue.Consumer.{
  ManagerError, Settings, Request, info, update, add, Manager, settings, ensure_durable_consumer,
}
use price_scout.Queue.Consumer.Laws.{
  IsStore, IsReachable, not_found, exists, name_in_use, ensure_durable_consumer_binds,
}
use price_scout.Queue.Pull.{Round, got, pull_loop}
use price_scout.Queue.Pull.Laws.{pulled_messages, settled_messages, OnlyRunning, pull_loop_settles}
use price_scout.Queue.Delivery.{Message}
use price_scout.Tests.Shop.{config}

abbrev message : Message
message = record { body = none; redelivery_count = 0 }

abbrev answer_request : Request → Option Settings → Option ManagerError × Option Settings
answer_request info none = (some not_found, none)
answer_request info (some s) = (none, some s)
answer_request (update s) none = (some not_found, none)
answer_request (update s) (some t) = (none, some s)
answer_request (add s) none = (none, some s)
answer_request (add s) (some t) = (some exists, some t)

abbrev stored : Manager
stored = record { World = Option Settings; respond = answer_request }

abbrev first_round : Round
first_round = (got message, false, false)

abbrev last_round : Round
last_round = (got message, true, true)

pull_loop_settles_example :
    (settled_messages (pull_loop (first_round ∷ last_round ∷ []))
      ≡ pulled_messages (first_round ∷ last_round ∷ []))
    × OnlyRunning (first_round ∷ last_round ∷ []) (pull_loop (first_round ∷ last_round ∷ []))
pull_loop_settles_example = pull_loop_settles (first_round ∷ last_round ∷ [])

updated_held :
    (s : Settings) (w : Option Settings)
    → (answer_request (update s) w).0 ≡ none
    → (answer_request (update s) w).1 ≡ some s
updated_held s none h = absurd cc
updated_held s (some t) h = refl

added_held :
    (s : Settings) (w : Option Settings)
    → (answer_request (add s) w).0 ≡ none
    → (answer_request (add s) w).1 ≡ some s
added_held s none h = refl
added_held s (some t) h = absurd cc

missing :
    (w : Option Settings) (e : ManagerError) → (answer_request info w).0 ≡ some e → e ≡ not_found
missing none e h = cc
missing (some s) e h = absurd cc

present :
    (s : Settings) (w : Option Settings)
    → (answer_request info w).0 ≡ none
    → (answer_request (update s) (answer_request info w).1).0 ≡ none
present s none h = absurd cc
present s (some t) h = refl

raced :
    (s : Settings) (w : Option Settings) (e : ManagerError)
    → (answer_request (add s) w).0 ≡ some e
    → ((e ≡ exists) ⊎ (e ≡ name_in_use))
      × ((answer_request (update s) (answer_request (add s) w).1).0 ≡ none)
raced s none e h = absurd cc
raced s (some t) e h = (inl cc, refl)

abbrev consumer_store : IsStore stored
consumer_store = record { held = λ w. w; updated = updated_held; added = added_held }

stored-IsReachable : IsReachable stored
stored-IsReachable = record { missing = missing; present = present; raced = raced }

ensure_durable_consumer_binds_example :
    ((ensure_durable_consumer stored config none).0 ≡ none)
    × (consumer_store.held (ensure_durable_consumer stored config none).1 ≡ some (settings config))
ensure_durable_consumer_binds_example =
    ensure_durable_consumer_binds stored config consumer_store stored-IsReachable none
