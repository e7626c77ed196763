-- ===== src/Safety/Replay.antt =====
-- `assertSafeActionTarget` and `replaySafeAction` of worker/src/safety.ts. The two texts of the
-- target are read one after the other.
pub mod Laws
pub mod Calls
use price_scout.Base.{ℕ, Bool, true, false, List, [], ◌∷◌, ◌++◌, ◌==◌, take, if◌then◌else◌}
use price_scout.Base.Text.{Text}
use price_scout.Base.Effects.{Failure, ok, err, safety, stale, validation, plain, msg}
use price_scout.Contracts.{Action}
use price_scout.Outside.{Platform, Outside, Url, Session, count, inner_text, inner_html, page_url}
use price_scout.Outside.Act.{Act, call, pure, throw, lift, catch, ◌>>=◌, ◌>>◌}
use price_scout.Safety.Action.{forbidden_interaction, assert_safe_action}
use price_scout.Safety.Url.{assert_same_origin}
use price_scout.Browser.{replay}

-- `error.message`
abbrev pub message_of : Failure → Text
message_of (safety m) = m
message_of (stale m) = m
message_of (validation r m) = m
message_of (plain m) = m

-- What the `try` block computes: whether the target is absent, and else the evidence.
pub data Target : Type 0 where
  absent : Target
  located : Text → Target

module _ (p : Platform) {o : Outside} (run : Session) where
  unfoldable pub locate : Action → Act o Target
  locate action = do
    found ← call (count run action.selector)
    if found == 0 then pure absent else (do
      text ← call (inner_text run action.selector)
      html ← call (inner_html run action.selector)
      pure (located (action.description ++ (10 ∷ (text ++ (10 ∷ take 20000 html))))))

  abbrev pub judge : Target → Act o Bool
  judge absent = pure false
  judge (located evidence) =
      if forbidden_interaction evidence
      then throw (safety (msg "The located action target appears to purchase, order, or subscribe"))
      else pure true

  unfoldable pub assert_safe_action_target : Action → Act o Bool
  assert_safe_action_target action = do
    target ← catch (locate action) (λ _. pure absent)
    judge target

  -- The loop over what the driver executed.
  unfoldable pub check_executed : List Action → Act o (Unit {0})
  check_executed [] = pure tt
  check_executed (replacement ∷ rest) = do
    lift (assert_safe_action p.unicode replacement)
    _ ← assert_safe_action_target replacement
    check_executed rest

  -- The driver's error is thrown on, unless the target was absent before.
  unfoldable pub perform : Action → Bool → Act o (List Action)
  perform action resolved = catch (replay run action) (λ error. throw (
      if resolved
      then error
      else stale (msg "Cached action target no longer resolves: " ++ message_of error)))

  -- The tests on the page and on the executed actions.
  unfoldable pub inspect : List Action → Url → Act o (List Action)
  inspect executed expected_origin = do
    current ← call (page_url run)
    lift (assert_same_origin p current expected_origin)
    check_executed executed
    pure executed

  unfoldable pub replay_safe_action : Action → Url → Act o (List Action)
  replay_safe_action action expected_origin = do
    lift (assert_safe_action p.unicode action)
    resolved ← assert_safe_action_target action
    executed ← perform action resolved
    inspect executed expected_origin
