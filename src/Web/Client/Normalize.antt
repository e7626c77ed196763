-- ===== src/Web/Client/Normalize.antt =====
-- `normalizeMonitor`, `durationBetween` and `normalizeCreateResult` of web/src/api/client.ts.
pub mod Laws
use price_scout.Base.{ℕ, ◌-◌, Bool, true, false, ◌&&◌, Option, none, some, List, [], ◌∷◌, map}
use price_scout.Base.{ltb, leb, find, keep, head, or_else, chain, if◌then◌else◌}
use price_scout.Base.Sorting.{sort_by}
use price_scout.Base.Text.{Text, text_eq, truthy}
use price_scout.Browser.{present}
use mathlib.Core.Option
use price_scout.Web.Types.{
  Observation, MonitorRevision, ExecutionSummary, Monitor, CreateMonitorResult,
}

-- `new Date(text).getTime()`, counted from the earliest time that a date can hold, with `none` for
-- NaN. The code compares times and subtracts them, so where the count starts is of no concern.
abbrev pub Dates : Type 0
Dates = Text → Option ℕ

-- `x && y`, for texts that may be absent
abbrev given : Option Text → Option Text
given t = if present t then t else none

abbrev pub elapsed : Option ℕ → Option ℕ → Option ℕ
elapsed (some started) (some completed) =
    if leb started completed then some (completed - started) else none
elapsed _ _ = none

unfoldable pub duration_between : Dates → Option Text → Option Text → Option ℕ
duration_between time started completed =
    elapsed (chain (given started) time) (chain (given completed) time)

-- `a.time - b.time > 0`, which is false for NaN
abbrev pub later : Option ℕ → Option ℕ → Bool
later (some a) (some b) = ltb b a
later _ _ = false

-- The union of the two forms that the control plane may answer with.
pub data MonitorAnswer : Type 0 where
  bare : Monitor → MonitorAnswer
  nested :
      Monitor
      → Option (List MonitorRevision)
      → Option (List ExecutionSummary)
      → Option (List Observation)
      → MonitorAnswer

abbrev pub monitor_of : MonitorAnswer → Monitor
monitor_of (bare m) = m
monitor_of (nested m revisions executions observations) = m

abbrev pub revisions_of : MonitorAnswer → Option (List MonitorRevision)
revisions_of (bare m) = m.revisions
revisions_of (nested m revisions executions observations) = or_else revisions m.revisions

abbrev pub executions_of : MonitorAnswer → Option (List ExecutionSummary)
executions_of (bare m) = m.executions
executions_of (nested m revisions executions observations) = or_else executions m.executions

abbrev pub observations_of : MonitorAnswer → Option (List Observation)
observations_of (bare m) = m.observations
observations_of (nested m revisions executions observations) = or_else observations m.observations

abbrev pub or_empty {ℓ} : {A : Type ℓ} → Option (List A) → List A
or_empty none = []
or_empty (some l) = l

-- `a.generation < b.generation`, for a sort from the newest on
abbrev pub older : MonitorRevision → MonitorRevision → Bool
older a b = ltb a.generation b.generation

abbrev pub is_named : Option Text → Text → Bool
is_named none id = false
is_named (some name) id = text_eq id name

unfoldable pub current_generation : Option Text → List MonitorRevision → Option ℕ
current_generation current revisions =
    or_else (Option.map (λ r. r.generation) (find (λ r. is_named current r.id) revisions)) (
      Option.map (λ r. r.generation)
        (head (sort_by older (keep (λ r. present r.activated_at) revisions))))

module _ (time : Dates) where
  abbrev pub with_duration : ExecutionSummary → ExecutionSummary
  with_duration e = record e {
    duration_ms = or_else e.duration_ms (duration_between time e.started_at e.completed_at);
  }

  -- `b.observedAt - a.observedAt > 0`
  abbrev pub observed_before : Observation → Observation → Bool
  observed_before a b = later (time b.observed_at) (time a.observed_at)

  unfoldable pub normalize_monitor : MonitorAnswer → Monitor
  normalize_monitor raw =
      let m = monitor_of raw in
      record m {
        revisions = revisions_of raw;
        executions = Option.map (map with_duration) (executions_of raw);
        observations = observations_of raw;
        latest_observation =
            or_else (head (sort_by observed_before (or_empty (observations_of raw))))
              m.latest_observation;
        current_generation = current_generation m.current_revision_id (or_empty (revisions_of raw));
      }

-- The forms of the answer to a new monitor: `{monitor, execution}`, `{monitor, executionId}`, or a
-- monitor with its execution's id.
pub data CreateAnswer : Type 0 where
  with_execution : Monitor → Option Text → CreateAnswer
  with_monitor : CreateMonitorResult → CreateAnswer
  bare : Monitor → Option Text → CreateAnswer

abbrev pub create_result : CreateAnswer → CreateMonitorResult
create_result (with_execution m id) = record { monitor = m; execution_id = id }
create_result (with_monitor result) = result
create_result (bare m id) = record { monitor = m; execution_id = id }
