-- ===== src/Web/Queries.antt =====
-- web/src/api/queries.ts: the keys of the query cache, when a query runs and how often it is asked
-- again, and the keys that a mutation invalidates. The cache itself is a library's.
use price_scout.Base.{ℕ, Bool, true, ◌&&◌, Option, none, some, List, [], ◌∷◌}
use price_scout.Base.Text.{Text, codes, truthy}
use price_scout.Web.Types.{ExecutionState, queued, running}

pub data QueryKey : Type 0 where
  monitors : QueryKey
  monitor : Text → QueryKey
  execution : Text → QueryKey
  review : Text → Text → QueryKey
  status metrics : QueryKey

-- The key as the cache has it.
abbrev pub key_texts : QueryKey → List Text
key_texts monitors = codes "monitors" ∷ []
key_texts (monitor id) = codes "monitor" ∷ id ∷ []
key_texts (execution id) = codes "execution" ∷ id ∷ []
key_texts (review monitor_id revision_id) = codes "review" ∷ monitor_id ∷ revision_id ∷ []
key_texts status = codes "system" ∷ codes "status" ∷ []
key_texts metrics = codes "system" ∷ codes "metrics" ∷ []

-- An id that is not known yet holds the query back.
abbrev pub is_enabled : QueryKey → Bool
is_enabled (monitor id) = truthy id
is_enabled (execution id) = truthy id
is_enabled (review monitor_id revision_id) = truthy monitor_id && truthy revision_id
is_enabled _ = true

-- `refetchInterval` in milliseconds, for an execution by its state if it is known.
abbrev pub execution_interval : Option ExecutionState → Option ℕ
execution_interval (some queued) = some 2000
execution_interval (some running) = some 2000
execution_interval _ = none

abbrev pub refetch_interval : QueryKey → Option ExecutionState → Option ℕ
refetch_interval monitors _ = some 30000
refetch_interval (execution id) state = execution_interval state
refetch_interval status _ = some 15000
refetch_interval metrics _ = some 15000
refetch_interval _ _ = none

-- The mutations; all but the first are of the monitor with the id.
pub data Mutation : Type 0 where
  create_monitor : Mutation
  update_monitor confirm_monitor run_check review_decision : Text → Mutation

abbrev pub invalidated : Mutation → List QueryKey
invalidated create_monitor = monitors ∷ []
invalidated (update_monitor id) = monitor id ∷ monitors ∷ []
invalidated (confirm_monitor id) = monitor id ∷ monitors ∷ []
invalidated (run_check id) = monitor id ∷ []
invalidated (review_decision id) = monitor id ∷ monitors ∷ []
