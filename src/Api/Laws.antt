-- ===== src/Api/Laws.antt =====
-- What the worker posts for a job (`ControlPlaneClient.result` of worker/src/api.ts).
use price_scout.Base.{true, false, ◌≡◌, refl, ◌↔◌, inl, inr, none, some, arith}
use price_scout.Base.Text.{Text}
use price_scout.Base.Effects.{Failure, Result, Result-cases, bind-eq-ok, ok}
use mathlib.Core.Option
use price_scout.Contracts.{
  Kind, compile, check, repair, Status, Revision, ExecutionInput, ExecutionResult, Observation,
}
use price_scout.Config.{Config}
use price_scout.Outside.{Platform, Outside}
use price_scout.Outside.Act.{St}
use price_scout.Validation.Identity.Laws.{Belongs}
use price_scout.Compiler.Verify.{Outcome}
use price_scout.Compiler.Laws.{IsConfirmed}
use price_scout.Handler.Failure.{status_of, classify_failure, safe_error}
use price_scout.Handler.Agreement.{IsSameOffer}
use price_scout.Handler.Report.{IsSecondLook, Ended}
use price_scout.Api.{Body, posted, Request, Reply, post_result, result_request}
use price_scout.Api.{read_reply}

-- What the body of a successful job of each kind holds.
abbrev pub Delivers : Platform → Outside → ExecutionInput → Kind → Body → Type 0
Delivers p o input compile b =
    (outcome : Outcome) × (b.plan ≡ some outcome.plan)
    × (b.observation ≡ some (posted Status.succeeded outcome.observation))
    × IsConfirmed p outcome
    × (b.auto_promote ≡ false)
Delivers p o input check b =
    (revision : Revision) × (observation : Observation) × (input.revision ≡ some revision)
    × (b.plan ≡ none)
    × (b.observation ≡ some (posted Status.succeeded observation))
    × Belongs p.unicode observation revision.plan
    × (b.auto_promote ≡ false)
Delivers p o input repair b =
    (outcome : Outcome) × (fresh : Observation) × (b.plan ≡ some outcome.plan)
    × IsConfirmed p outcome
    × IsSecondLook p o outcome.plan fresh
    × Belongs p.unicode fresh outcome.plan
    × IsSameOffer outcome.observation fresh
    × (b.auto_promote ≡ true)

-- The body of a success, or that of a failure, with the error and nothing to act on.
pub data IsPost (p : Platform) (o : Outside) (config : Config) (input : ExecutionInput) (s : St o)
    (b : Body) : Type 0 where
  accepted :
      b.status ≡ Status.succeeded
      → b.error ≡ none
      → b.failure_classification ≡ none
      → Delivers p o input input.kind b
      → IsPost p o config input s b
  refused :
      (e : Failure)
      → Ended p o config input s e
      → b.status ≡ status_of e
      → b.error ≡ some (safe_error e)
      → b.failure_classification ≡ some (classify_failure p.unicode e)
      → b.plan ≡ none
      → b.observation ≡ none
      → b.auto_promote ≡ false
      → IsPost p o config input s b

is_ok_of_reply :
    (encode : Text → Text) (config : Config) (reply : Reply)
    → read_reply encode config reply ≡ ok tt
    → reply.is_ok ≡ true
is_ok_of_reply encode config reply h = elim (Result-cases reply.text) [
  | inl (text, given) ↦ grind arith
  | inr (e, given) ↦ grind arith
]

-- `ControlPlaneClient.result` returns exactly if the control plane answers its request with a
-- status of success; any other answer, and none, makes it throw.
post_result_iff :
    (encode : Text → Text) (config : Config) (fetch : Request → Result Reply) (id : Text)
    (r : ExecutionResult)
    → (post_result encode config fetch id r ≡ ok tt) ↔ (
        (reply : Reply) × (fetch (result_request encode config id r) ≡ ok reply)
        × (reply.is_ok ≡ true))
unfolding post_result
post_result_iff encode config fetch id r = (
  λ h.
      let (reply, given, fine) =
        bind-eq-ok (fetch (result_request encode config id r)) (read_reply encode config) tt h in
      (reply, given, is_ok_of_reply encode config reply fine),
  λ (reply, given, fine). rw given (rw fine refl),
)
