-- ===== src/Handler/Replay.antt =====
-- `warmCheck`, `repairLive`, `validateRepairFresh` and `assertObservationsAgree` of
-- worker/src/handler.ts: replaying a plan without a model, healing it, and validating the healed
-- plan in a browser of its own.
use price_scout.Base.{ℕ, Bool, true, false, not, ◌&&◌, Option, none, some, List, [], ◌∷◌, last, max}
use price_scout.Base.{◌==◌, if◌then◌else◌}
use price_scout.Base.Text.{Text, text_eq}
use price_scout.Base.Effects.{Check, ok, err, Failure, safety, validation, ambiguous_value, msg}
use price_scout.Contracts.{Action, Step, Plan, Observation, ExecutionInput, Source}
use price_scout.Config.{Config}
use price_scout.Outside.{Platform, Outside, Url, Session, validator, goto, page_url}
use price_scout.Outside.Act.{St, Act, call, pure, throw, lift, catch, finally, ◌>>=◌, ◌>>◌}
use price_scout.Safety.Url.{assert_same_origin}
use price_scout.Safety.Replay.{replay_safe_action}
use price_scout.Validation.Price.{same_currency}
use price_scout.Browser.{new_run, init, close}
use price_scout.Compiler.{compile_monitor}
use price_scout.Compiler.Verify.{Outcome, replay_steps, observe_valid}

abbrev pub same_bool : Bool → Bool → Bool
same_bool true b = b
same_bool false b = not b

-- Two serialised records of texts are equal exactly if their entries are, in their order.
unfoldable pub same_entries : List (Text × Text) → List (Text × Text) → Bool
same_entries [] [] = true
same_entries ((k, v) ∷ l) ((j, w) ∷ m) = text_eq k j && (text_eq v w && same_entries l m)
same_entries _ _ = false

abbrev pub agree : Observation → Observation → Bool
agree candidate fresh =
    (candidate.price_minor == fresh.price_minor)
    && (same_currency candidate.currency fresh.currency
        && (same_bool candidate.in_stock fresh.in_stock
            && (text_eq candidate.identity_fingerprint fresh.identity_fingerprint
                && same_entries candidate.selected_variant fresh.selected_variant)))

unfoldable pub assert_observations_agree : Observation → Observation → Check
assert_observations_agree candidate fresh =
    if agree candidate fresh
    then ok tt
    else err (
        validation ambiguous_value (
          msg
            "Repair candidate produced conflicting observations in an independent browser session"))

-- A step with the last action that the driver healed it to, if there is one.
abbrev pub healed_step : Step → Option Action → Step
healed_step step none = step
healed_step step (some replacement) = record step { action = replacement }

abbrev pub healed_outcome : Plan → Observation → ℕ → Outcome
healed_outcome candidate first metric = record {
  plan = candidate;
  observation = first;
  model_call_count = max 1 metric;
  source = Source.stagehand;
}

-- The errors that the repair does not recover from.
abbrev pub is_final : Failure → Bool
is_final (safety m) = true
is_final (validation r m) = true
is_final _ = false

module _ {o : Outside} where
  abbrev pub throw_if_aborted : Act o (Unit {0})
  throw_if_aborted s = elim (o.aborted s.world) [
    | none ↦ (ok tt, s)
    | some reason ↦ (err reason, s)
  ]

  -- The cleanup of a session; closing does not throw.
  abbrev pub closing : Session → St o → St o
  closing run s = (close run s).1

module _ (p : Platform) {o : Outside} (run : Session) where
  unfoldable pub warm_check : Plan → Url → Act o Observation
  warm_check plan target = do
    call (goto run plan.canonical_url)
    current ← call (page_url run)
    lift (assert_same_origin p current target)
    replay_steps p run plan.preparation_steps target
    observe_valid p run plan

  unfoldable pub heal_steps : List Step → Url → Act o (List Step)
  heal_steps [] target = pure []
  heal_steps (step ∷ rest) target = do
    healed ← replay_safe_action p run step.action target
    steps ← heal_steps rest target
    pure (healed_step step (last healed) ∷ steps)

  -- The `try` block of `repairLive`.
  unfoldable pub heal : Plan → Url → Act o Outcome
  heal old_plan target = do
    steps ← heal_steps old_plan.preparation_steps target
    let candidate = record old_plan { preparation_steps = steps }
    first ← observe_valid p run candidate
    metric ← (λ s. (ok (o.self_heal_count run s.world), s))
    pure (healed_outcome candidate first metric)

  unfoldable pub repair_live : Config → ExecutionInput → Plan → Url → Act o Outcome
  repair_live config input old_plan target = do
    call (goto run old_plan.canonical_url)
    current ← call (page_url run)
    lift (assert_same_origin p current target)
    catch (heal old_plan target)
        (λ error. if is_final error then throw error else compile_monitor p config run input target)

module _ (p : Platform) {o : Outside} where
  -- The browser is closed however the check ends, once there is one.
  unfoldable pub validate_repair_fresh : Config → Plan → Url → Act o Observation
  validate_repair_fresh config plan target = do
    new_run config validator (record { self_heal = false; needs_model = false })
    finally
        (do
          throw_if_aborted
          init validator target.hostname
          throw_if_aborted
          observation ← warm_check p validator plan target
          throw_if_aborted
          pure observation)
        (closing validator)
