-- ===== src/Compiler/Calls.antt =====
-- The calls of the compilers.
use price_scout.Base.{ℕ, Bool, true, false, ◌≡◌, refl, List, [], ◌∷◌, head}
use price_scout.Base.Text.{Text}
use price_scout.Contracts
use price_scout.Contracts.{Action, Step, Observation, ExecutionInput, Source}
use price_scout.Config.{Config}
use price_scout.Outside.{
  Platform, Outside, Url, Session, Call, Snapshot, Semantic, count, goto, page_url, snapshot,
  parse_intent, select_nodes, observe, extract,
}
use price_scout.Outside.Act.{call, lift}
use price_scout.Outside.Makes.{
  Makes, makes_rules, Makes-pure, Makes-throw, Makes-lift, Makes-bind, Makes-call, Makes-option,
  Makes-list,
}
use price_scout.Safety.Action.{assert_safe_action}
use price_scout.Safety.Replay.{replay_safe_action}
use price_scout.Safety.Replay.Calls.{Allows, replay_safe_action-Makes}
use price_scout.Extract.{extract_observation}
use price_scout.Extract.Calls.{extract_observation-Makes}
use price_scout.Compiler.{Compiler, compile_with, compile_monitor}
use price_scout.Compiler.Verify.{replay_steps, observe_valid, execute_and_verify, verify_fresh}
use price_scout.Compiler.Fixture.{confirm_plan, compile_fixture}
use price_scout.Compiler.Fixture.Plan.{requested_of}
use price_scout.Compiler.Live.{
  Request, require_model, parse_request, observe_steps, instruction, select_snapshot_nodes,
  cross_check, compile_snapshot, compile_live,
}

-- A question to a model, directly or through the driver. What else the driver may ask when it
-- performs an action hangs on the options that it was made with.
abbrev pub asks_model : Call → Bool
asks_model (parse_intent t) = true
asks_model (select_nodes snap requested) = true
asks_model (observe s t) = true
asks_model (extract s) = true
asks_model _ = false

module _ (p : Platform) {o : Outside} (run : Session) {P : Call → Type 0}
    (allows : Allows p.unicode P) where
  open allows use {quiet}

  pub goto-Makes : (t : Text) → Makes P {o = o} (call (goto run t))
  goto-Makes t = Makes-call (goto run t) (quiet (goto run t) refl)

  pub page_url-Makes : Makes P {o = o} (call (page_url run))
  page_url-Makes = Makes-call (page_url run) (quiet (page_url run) refl)

  replay-Makes :
      (a : Action) (expected : Url) → Makes P {o = o} (replay_safe_action p run a expected)
  replay-Makes a expected = replay_safe_action-Makes p run allows a expected

  extraction-Makes : (plan : Contracts.Plan) → Makes P {o = o} (extract_observation p run plan)
  extraction-Makes plan = extract_observation-Makes p run allows plan

  pub replay_steps-Makes :
      (l : List Step) (target : Url) → Makes P {o = o} (replay_steps p run l target)
  unfolding replay_steps
  replay_steps-Makes [] target = Makes-pure tt
  replay_steps-Makes (step ∷ rest) target =
      Makes-bind (replay_safe_action p run step.action target) _ (replay-Makes step.action target)
        (λ _. replay_steps-Makes rest target)

  pub observe_valid-Makes : (plan : Contracts.Plan) → Makes P {o = o} (observe_valid p run plan)
  unfolding observe_valid
  observe_valid-Makes plan = search (makes_rules, extraction-Makes) depth 12

  verify-Makes :
      (plan : Contracts.Plan) (target : Url)
      → Makes P {o = o} (execute_and_verify p run plan target)
  unfolding execute_and_verify
  verify-Makes plan target = search (makes_rules, replay_steps-Makes, observe_valid-Makes) depth 12

  fresh-Makes :
      (plan : Contracts.Plan) (target : Url) → Makes P {o = o} (verify_fresh p run plan target)
  unfolding verify_fresh
  fresh-Makes plan target = search (makes_rules, goto-Makes, page_url-Makes, verify-Makes) depth 14

  confirm-Makes :
      (plan : Contracts.Plan) (observation : Observation) (requested : List (Text × Text))
      → (target : Url) (calls : ℕ) (source : Source)
      → Makes P {o = o} (confirm_plan p run plan observation requested target calls source)
  unfolding confirm_plan
  confirm-Makes plan observation requested target calls source =
      search (makes_rules, fresh-Makes) depth 14

  count-Makes : (t : Text) → Makes P {o = o} (call (count run t))
  count-Makes t = Makes-call (count run t) (quiet (count run t) refl)

  compile_fixture-Makes :
      (input : ExecutionInput) (target : Url) → Makes P {o = o} (compile_fixture p run input target)
  unfolding compile_fixture
  compile_fixture-Makes input target =
      search (makes_rules, count-Makes, verify-Makes, confirm-Makes) depth 20

  module _ (config : Config) (asks : (c : Call) → asks_model c ≡ true → P c) where
    model-Makes : Makes P {o = o} (require_model p config run)
    model-Makes = search makes_rules

    intent-Makes : (t : Text) → Makes P {o = o} (call (parse_intent t))
    intent-Makes t = Makes-call (parse_intent t) (asks (parse_intent t) refl)

    nodes-Makes :
        (snap : Snapshot) (l : List (Text × Text)) → Makes P {o = o} (call (select_nodes snap l))
    nodes-Makes snap l = Makes-call (select_nodes snap l) (asks (select_nodes snap l) refl)

    observe-Makes : (t : Text) → Makes P {o = o} (call (observe run t))
    observe-Makes t = Makes-call (observe run t) (asks (observe run t) refl)

    semantic-Makes : Makes P {o = o} (call (extract run))
    semantic-Makes = Makes-call (extract run) (asks (extract run) refl)

    snapshot-Makes : Makes P {o = o} (call (snapshot run))
    snapshot-Makes = Makes-call (snapshot run) (quiet (snapshot run) refl)

    request-Makes : (input : ExecutionInput) → Makes P {o = o} (parse_request p config run input)
    unfolding parse_request
    request-Makes input =
        Makes-list (requested_of input.condition) _ _ (λ v vs. Makes-pure _)
          (search (makes_rules, model-Makes, intent-Makes) depth 12)

    observe_steps-Makes : (l : List (Text × Text)) → Makes P {o = o} (observe_steps p config run l)
    unfolding observe_steps
    observe_steps-Makes [] = Makes-pure []
    observe_steps-Makes ((attribute, value) ∷ rest) =
        Makes-bind (call (observe run (instruction attribute value))) _
          (observe-Makes (instruction attribute value))
          (λ candidates.
            Makes-option (head candidates) _ _
              (λ a. Makes-bind (lift (assert_safe_action p.unicode a)) _ (Makes-lift _) (λ _.
                Makes-bind (observe_steps p config run rest) _ (observe_steps-Makes rest)
                  (λ steps. Makes-pure _)))
              (Makes-throw _))

    selection-Makes :
        (snap : Snapshot) (l : List (Text × Text))
        → Makes P {o = o} (select_snapshot_nodes p config run snap l)
    unfolding select_snapshot_nodes
    selection-Makes snap l = search (makes_rules, model-Makes, nodes-Makes) depth 12

    cross_check-Makes :
        (s : Semantic) (observation : Observation)
        → Makes P {o = o} (cross_check p config run s observation)
    unfolding cross_check
    cross_check-Makes s observation = search makes_rules depth 20

    snapshot_compile-Makes :
        (input : ExecutionInput) (target : Url) (request : Request) (steps : List Step)
        → Makes P {o = o} (compile_snapshot p config run input target request steps)
    unfolding compile_snapshot
    snapshot_compile-Makes input target request steps =
        search
          (
            makes_rules, snapshot-Makes, selection-Makes, semantic-Makes, extraction-Makes,
            cross_check-Makes, confirm-Makes,
          )
          depth 40

    compile_live-Makes :
        (input : ExecutionInput) (target : Url)
        → Makes P {o = o} (compile_live p config run input target)
    unfolding compile_live
    compile_live-Makes input target =
        search
          (
            makes_rules, request-Makes, observe_steps-Makes, replay_steps-Makes,
            snapshot_compile-Makes,
          )
          depth 20

    with-Makes :
        (c : Compiler) (input : ExecutionInput) (target : Url)
        → Makes P {o = o} (compile_with p config run c input target)
    with-Makes Compiler.scripted input target = compile_fixture-Makes input target
    with-Makes Compiler.live input target = compile_live-Makes input target

    pub compile_monitor-Makes :
        (input : ExecutionInput) (target : Url)
        → Makes P {o = o} (compile_monitor p config run input target)
    unfolding compile_monitor
    compile_monitor-Makes input target =
        search (makes_rules, goto-Makes, page_url-Makes, with-Makes) depth 20
