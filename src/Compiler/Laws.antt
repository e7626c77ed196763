-- ===== src/Compiler/Laws.antt =====
-- What the compilers return: a plan together with an observation of it that was validated.
use price_scout.Base.{ℕ, ◌≡◌, List}
use price_scout.Base.Text.{Text}
use price_scout.Base.Effects.{ok}
use price_scout.Contracts
use price_scout.Contracts.{Step, Observation, ExecutionInput, Source}
use price_scout.Config.{Config}
use price_scout.Outside.{Platform, Outside, Url, Session}
use price_scout.Outside.Act.{St, lift}
use price_scout.Outside.Returns.{Returns, Returns-pure, Returns-bind, Returns-after}
use price_scout.Validation.Identity.{validate_observation}
use price_scout.Validation.Identity.Laws.{Belongs, validate_observation_iff}
use price_scout.Extract.{extract_observation}
use price_scout.Compiler.{Compiler, compile_with, compile_monitor}
use price_scout.Compiler.Verify.{Outcome, observe_valid, verify_fresh}
use price_scout.Compiler.Fixture.{confirm_plan, observed_identity, compile_fixture}
use price_scout.Compiler.Live.{Request, compile_snapshot, compile_live}

abbrev pub IsConfirmed : Platform → Outcome → Type 0
IsConfirmed p outcome = Belongs p.unicode outcome.observation outcome.plan

module _ (p : Platform) {o : Outside} (run : Session) where
  pub observe_valid-Belongs :
      (plan : Contracts.Plan)
      → Returns {o = o}
          (λ observation. Belongs p.unicode observation plan)
          (observe_valid p run plan)
  unfolding observe_valid
  observe_valid-Belongs plan = Returns-bind (extract_observation p run plan) _ (λ observation s e.
      Returns-bind (lift (validate_observation p.unicode observation plan)) _ (λ _ t valid.
        Returns-pure observation ((validate_observation_iff p.unicode observation plan).0 valid)))

  confirm-IsConfirmed :
      (plan : Contracts.Plan) (observation : Observation) (requested : List (Text × Text))
      → (target : Url) (calls : ℕ) (source : Source)
      → Returns {o = o}
          (IsConfirmed p)
          (confirm_plan p run plan observation requested target calls source)
  unfolding confirm_plan
  confirm-IsConfirmed plan observation requested target calls source =
      let final = record plan { identity = observed_identity observation requested } in
      Returns-bind (lift (validate_observation p.unicode observation final)) _ (λ _ s valid.
        Returns-bind (verify_fresh p run final target) _ (λ _ t e.
          Returns-pure _ ((validate_observation_iff p.unicode observation final).0 valid)))

  fixture-IsConfirmed :
      (input : ExecutionInput) (target : Url)
      → Returns {o = o} (IsConfirmed p) (compile_fixture p run input target)
  unfolding compile_fixture
  fixture-IsConfirmed input target = search (Returns-after, confirm-IsConfirmed) depth 12

  module _ (config : Config) where
    snapshot-IsConfirmed :
        (input : ExecutionInput) (target : Url) (request : Request) (steps : List Step)
        → Returns {o = o} (IsConfirmed p) (compile_snapshot p config run input target request steps)
    unfolding compile_snapshot
    snapshot-IsConfirmed input target request steps =
        search (Returns-after, confirm-IsConfirmed) depth 24

    live-IsConfirmed :
        (input : ExecutionInput) (target : Url)
        → Returns {o = o} (IsConfirmed p) (compile_live p config run input target)
    unfolding compile_live
    live-IsConfirmed input target = search (Returns-after, snapshot-IsConfirmed) depth 12

    with-IsConfirmed :
        (c : Compiler) (input : ExecutionInput) (target : Url)
        → Returns {o = o} (IsConfirmed p) (compile_with p config run c input target)
    with-IsConfirmed Compiler.scripted input target = fixture-IsConfirmed input target
    with-IsConfirmed Compiler.live input target = live-IsConfirmed input target

    pub monitor-IsConfirmed :
        (input : ExecutionInput) (target : Url)
        → Returns {o = o} (IsConfirmed p) (compile_monitor p config run input target)
    unfolding compile_monitor
    monitor-IsConfirmed input target = search (Returns-after, with-IsConfirmed) depth 12

-- A compilation that returns gives an observation that belongs to the plan it gives.
pub compile_monitor_sound :
    (p : Platform) (o : Outside) (config : Config) (run : Session) (input : ExecutionInput)
    → (target : Url) (s : St o) (outcome : Outcome)
    → (compile_monitor p config run input target s).0 ≡ ok outcome
    → IsConfirmed p outcome
compile_monitor_sound p o config run input target s outcome =
    (monitor-IsConfirmed p run config input target).at s outcome
