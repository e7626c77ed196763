-- ===== src/Compiler/Fixture.antt =====
-- `compileFixture` of worker/src/compiler.ts. The two page layouts of the fixture shop are told apart
-- by an element of the first.
pub mod Plan
use price_scout.Base.{ℕ, Option, none, some, List, ltb, if◌then◌else◌}
use price_scout.Base.Text.{Text, codes}
use price_scout.Contracts.{Identity, Observation, ExecutionInput, Source}
use price_scout.Contracts
use price_scout.Outside.{Platform, Outside, Url, Session, count}
use price_scout.Outside.Act.{Act, call, pure, lift, ◌>>=◌, ◌>>◌}
use price_scout.Validation.Identity.{validate_observation}
use price_scout.Browser.{present}
use price_scout.Compiler.Verify.{Outcome, execute_and_verify, verify_fresh}
use Plan.{fixture_variants, fixture_steps, fixture_plan}

-- `provisional.identity = { … }`
abbrev pub observed_identity : Observation → List (Text × Text) → Identity
observed_identity observation requested = record {
  title = observation.title;
  brand = none;
  sku = if present observation.sku then observation.sku else none;
  fingerprint = observation.identity_fingerprint;
  requested_variant = requested;
}

module _ (p : Platform) {o : Outside} (run : Session) where
  -- The end of both compilers: the plan takes the identity observed, and must hold afresh.
  unfoldable pub confirm_plan :
      Contracts.Plan → Observation → List (Text × Text) → Url → ℕ → Source → Act o Outcome
  confirm_plan provisional observation requested target calls source = do
    let plan = record provisional { identity = observed_identity observation requested }
    lift (validate_observation p.unicode observation plan)
    verify_fresh p run plan target
    pure (record {
      plan = plan;
      observation = observation;
      model_call_count = calls;
      source = source;
    })

  unfoldable pub compile_fixture : ExecutionInput → Url → Act o Outcome
  compile_fixture input target = do
    legacy ← call (count run (codes "#legacy-color-black"))
    let v1 = ltb 0 legacy
    let requested = fixture_variants p.unicode input
    steps ← lift (fixture_steps p.unicode v1 requested)
    let provisional = fixture_plan p v1 input target requested steps
    observation ← execute_and_verify p run provisional target
    confirm_plan provisional observation requested target 0 Source.scripted
