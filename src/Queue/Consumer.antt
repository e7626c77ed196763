-- ===== src/Queue/Consumer.antt =====
-- `ensureDurableConsumer` of worker/src/queue.ts. The manager of the stream's consumers is a
-- parameter; other replicas may act between two requests, which is part of its world.
pub mod Laws
use price_scout.Base.{ℕ, Bool, true, false, not, ◌||◌, Option, none, some, List, [], ◌∷◌, ◌++◌}
use price_scout.Base.{if◌then◌else◌}
use price_scout.Base.Text.{Text, codes, text_eq}
use price_scout.Regex.{Regex, test, folded, folded_any, seq, alt, star, unit}
use price_scout.Handler.Failure.{is_terminator}
use price_scout.Config.{Config}

-- `String(error.code ?? "")` and `String(error)`
pub record ManagerError : Type 0 where
  pub code : Text
  pub text : Text

-- The settings that an existing consumer can be given. The wait is in milliseconds; no limit of
-- deliveries is `none`.
pub record Settings : Type 0 where
  pub ack_wait : ℕ
  pub max_deliver : Option ℕ
  pub max_ack_pending : ℕ

-- Requests about the worker's consumer. One that is added has further settings, all of them fixed.
pub data Request : Type 0 where
  info : Request
  update add : Settings → Request

-- An answer is an error or nothing of use.
pub record Manager : Type 1 where
  pub World : Type 0
  pub respond : Request → World → Option ManagerError × World

unfoldable pub is_consumer_missing : ManagerError → Bool
is_consumer_missing e =
    text_eq e.code (codes "404") || test (folded (codes "consumer not found")) e.text

abbrev gap : Regex
gap = star (unit (λ c. not (is_terminator c)))

abbrev taken : Regex
taken = folded_any ("already exists" ∷ "name already in use" ∷ [])

unfoldable pub is_consumer_already_exists : ManagerError → Bool
is_consumer_already_exists e =
    test
      (alt (seq (folded (codes "consumer")) (seq gap taken))
        (seq taken (seq gap (folded (codes "consumer")))))
      (e.code ++ (codes " " ++ e.text))

abbrev pub settings : Config → Settings
settings config = record {
  ack_wait = 90000;
  max_deliver = none;
  max_ack_pending = config.worker_max_in_flight;
}

module _ (m : Manager) (config : Config) where
  abbrev pub refresh : m.World → Option ManagerError × m.World
  refresh w = m.respond (update (settings config)) w

  -- What follows the answer to `info`.
  unfoldable pub after_info : Option ManagerError × m.World → Option ManagerError × m.World
  after_info (none, w) = refresh w
  after_info (some e, w) = (some e, w)

  -- What follows the answer to `add`: the handler of the second `try` block.
  unfoldable pub after_add : Option ManagerError × m.World → Option ManagerError × m.World
  after_add (none, w) = (none, w)
  after_add (some e, w) = if is_consumer_already_exists e then refresh w else (some e, w)

  -- What follows the first `try` block: its handler, and the second block.
  unfoldable pub after_refresh : Option ManagerError × m.World → Option ManagerError × m.World
  after_refresh (none, w) = (none, w)
  after_refresh (some e, w) =
      if is_consumer_missing e then after_add (m.respond (add (settings config)) w) else (some e, w)

  -- `none` is a return without an error.
  unfoldable pub ensure_durable_consumer : m.World → Option ManagerError × m.World
  ensure_durable_consumer w = after_refresh (after_info (m.respond info w))
