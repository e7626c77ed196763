-- ===== src/Safety/Replay/Calls.antt =====
-- The calls that a replay makes: reads of the page, and the driver's `act` for an action that has
-- passed the check.
use price_scout.Base.{Bool, true, false, ◌≡◌, refl, List, [], ◌∷◌}
use price_scout.Base.Text.{Text}
use price_scout.Base.Unicode.{Unicode}
use price_scout.Contracts.{Action}
use price_scout.Outside.{
  Platform, Outside, Url, Session, Call, act, count, inner_text, inner_html, page_url, parse_intent,
  select_nodes, observe, extract, launch, construct,
}
use price_scout.Outside.Act.{call, pure, lift, catch}
use price_scout.Outside.Makes.{
  Makes, makes_rules, Makes-pure, Makes-throw, Makes-lift, Makes-catch, Makes-bind,
  Makes-bind_given, Makes-call,
}
use price_scout.Safety.Action.{assert_safe_action}
use price_scout.Safety.Action.Laws.{IsSafeAction, assert_safe_action_iff}
use price_scout.Safety.Url.{assert_same_origin}
use price_scout.Safety.Replay.{
  Target, absent, located, judge, locate, assert_safe_action_target, check_executed, perform,
  inspect, replay_safe_action,
}
use price_scout.Browser.{replay, public_action}

-- Neither an interaction with the page nor a question to a model, nor the making or the start of a
-- browser.
abbrev pub is_quiet : Call → Bool
is_quiet (act s a) = false
is_quiet (parse_intent t) = false
is_quiet (select_nodes snap requested) = false
is_quiet (observe s t) = false
is_quiet (extract s) = false
is_quiet (launch s) = false
is_quiet (construct s heal client) = false
is_quiet _ = true

-- A predicate on calls that quiet ones satisfy, and interactions with safe actions.
pub record Allows (u : Unicode) (P : Call → Type 0) : Type 0 where
  pub quiet : (c : Call) → is_quiet c ≡ true → P c
  pub safe : (run : Session) (a : Action) → IsSafeAction u a → P (act run (public_action a))

module _ (p : Platform) {o : Outside} (run : Session) {P : Call → Type 0}
    (allows : Allows p.unicode P) where
  open allows use {quiet, safe}

  quiet_call : (c : Call) → is_quiet c ≡ true → Makes P {o = o} (call c)
  quiet_call c e = Makes-call c (quiet c e)

  count-Makes : (t : Text) → Makes P {o = o} (call (count run t))
  count-Makes t = quiet_call (count run t) refl

  text-Makes : (t : Text) → Makes P {o = o} (call (inner_text run t))
  text-Makes t = quiet_call (inner_text run t) refl

  html-Makes : (t : Text) → Makes P {o = o} (call (inner_html run t))
  html-Makes t = quiet_call (inner_html run t) refl

  locate-Makes : (a : Action) → Makes P {o = o} (locate p run a)
  unfolding locate
  locate-Makes a = search (makes_rules, count-Makes, text-Makes, html-Makes) depth 12

  judge-Makes : (t : Target) → Makes P {o = o} (judge p run t)
  judge-Makes absent = Makes-pure false
  judge-Makes (located e) = search makes_rules

  target-Makes : (a : Action) → Makes P {o = o} (assert_safe_action_target p run a)
  unfolding assert_safe_action_target
  target-Makes a =
      Makes-bind (catch (locate p run a) (λ _. pure absent)) (judge p run)
        (Makes-catch (locate p run a) (λ _. pure absent) (locate-Makes a) (λ e. Makes-pure absent))
        judge-Makes

  check_executed-Makes : (l : List Action) → Makes P {o = o} (check_executed p run l)
  unfolding check_executed
  check_executed-Makes [] = Makes-pure tt
  check_executed-Makes (a ∷ l) =
      Makes-bind (lift (assert_safe_action p.unicode a)) _ (Makes-lift _) (λ _.
        Makes-bind (assert_safe_action_target p run a) (λ _. check_executed p run l)
          (target-Makes a) (λ _. check_executed-Makes l))

  inspect-Makes : (l : List Action) (expected : Url) → Makes P {o = o} (inspect p run l expected)
  unfolding inspect
  inspect-Makes l expected =
      Makes-bind (call (page_url run)) _ (quiet_call (page_url run) refl) (λ current.
        Makes-bind (lift (assert_same_origin p current expected)) _ (Makes-lift _)
          (λ _. Makes-bind (check_executed p run l) _ (check_executed-Makes l) (λ _. Makes-pure l)))

  replay-Makes : (a : Action) → IsSafeAction p.unicode a → Makes P {o = o} (replay run a)
  unfolding replay
  replay-Makes a is_safe =
      Makes-bind (call (act run (public_action a))) _
        (Makes-call (act run (public_action a)) (safe run a is_safe)) (λ result. search makes_rules)

  perform-Makes :
      (a : Action) (b : Bool) → IsSafeAction p.unicode a → Makes P {o = o} (perform p run a b)
  unfolding perform
  perform-Makes a b is_safe =
      Makes-catch (replay run a) _ (replay-Makes a is_safe) (λ e. Makes-throw _)

  pub replay_safe_action-Makes :
      (a : Action) (expected : Url) → Makes P {o = o} (replay_safe_action p run a expected)
  unfolding replay_safe_action
  replay_safe_action-Makes a expected =
      Makes-bind_given (lift (assert_safe_action p.unicode a)) _ (Makes-lift _) (λ _ s passed.
        Makes-bind (assert_safe_action_target p run a) _ (target-Makes a) (λ resolved.
          Makes-bind (perform p run a resolved) _
            (perform-Makes a resolved ((assert_safe_action_iff p.unicode a).0 passed))
            (λ l. inspect-Makes l expected)))
