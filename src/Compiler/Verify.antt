-- ===== src/Compiler/Verify.antt =====
-- `CompileOutcome`, `executeAndVerify` and `verifyFresh` of worker/src/compiler.ts.
use price_scout.Base.{ℕ, List, [], ◌∷◌}
use price_scout.Contracts.{Step, Plan, Observation, Source}
use price_scout.Outside.{Platform, Outside, Url, Session, goto, page_url}
use price_scout.Outside.Act.{Act, call, pure, lift, ◌>>=◌, ◌>>◌}
use price_scout.Safety.Url.{assert_same_origin}
use price_scout.Safety.Replay.{replay_safe_action}
use price_scout.Validation.Identity.{validate_observation}
use price_scout.Extract.{extract_observation}

pub record Outcome : Type 0 where
  pub plan : Plan
  pub observation : Observation
  pub model_call_count : ℕ
  pub source : Source

module _ (p : Platform) {o : Outside} (run : Session) where
  -- `for (const step of steps) await replaySafeAction(…)`
  unfoldable pub replay_steps : List Step → Url → Act o (Unit {0})
  replay_steps [] target = pure tt
  replay_steps (step ∷ rest) target = do
    _ ← replay_safe_action p run step.action target
    replay_steps rest target

  -- An extraction and its validation, in this order.
  unfoldable pub observe_valid : Plan → Act o Observation
  observe_valid plan = do
    observation ← extract_observation p run plan
    lift (validate_observation p.unicode observation plan)
    pure observation

  unfoldable pub execute_and_verify : Plan → Url → Act o Observation
  execute_and_verify plan target = do replay_steps plan.preparation_steps target; observe_valid plan

  unfoldable pub verify_fresh : Plan → Url → Act o (Unit {0})
  verify_fresh plan target = do
    call (goto run target.href)
    current ← call (page_url run)
    lift (assert_same_origin p current target)
    _ ← execute_and_verify plan target
    pure tt
