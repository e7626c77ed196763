-- ===== src/Handler/Failure.antt =====
-- How worker/src/handler.ts reports a failure: `safeError`, `classifyFailure` and the status.
pub mod Laws
use price_scout.Base.{ℕ, Bool, true, false, not, ◌||◌, List, [], ◌∷◌, take, ◌==◌, if◌then◌else◌}
use price_scout.Base.Text.{Text, codes}
use price_scout.Base.Unicode.{Unicode}
use price_scout.Base.Effects.{Reason, Failure, safety, stale, validation, plain}
use price_scout.Contracts.{Classification, Status, FailureReport}
use price_scout.Regex.{Regex, test, exactly, any_of, seq, unit, optional}
use price_scout.Safety.Replay.{message_of}

-- `/[\r\n]/`, and what `.` does not match
abbrev pub is_break : ℕ → Bool
is_break c = c == 10 || c == 13

abbrev pub is_terminator : ℕ → Bool
is_terminator c = is_break c || c == 0x2028 || c == 0x2029

-- `text.replace(/[\r\n]+/g, " ")`: `open_run` tells that a space already stands for the run.
unfoldable pub one_line : Bool → Text → Text
one_line open_run [] = []
one_line open_run (c ∷ s) =
    let rest = one_line (is_break c) s in
    if not (is_break c) then c ∷ rest else if open_run then rest else 32 ∷ rest

unfoldable pub safe_error : Failure → Text
safe_error error = take 1000 (one_line false (message_of error))

abbrev any_unit : Regex
any_unit = unit (λ c. not (is_terminator c))

abbrev pub mentions_limit : Regex
mentions_limit = any_of (
    exactly (codes "429")
    ∷ seq (exactly (codes "rate")) (seq (optional any_unit) (exactly (codes "limit")))
    ∷ exactly (codes "retry-after")
    ∷ [])

abbrev pub mentions_block : Regex
mentions_block = any_of (
    exactly (codes "403")
    ∷ exactly (codes "captcha")
    ∷ exactly (codes "access denied")
    ∷ exactly (codes "blocked")
    ∷ [])

abbrev pub mentions_element : Regex
mentions_element = any_of (
    exactly (codes "selector")
    ∷ exactly (codes "element")
    ∷ exactly (codes "xpath")
    ∷ exactly (codes "locator")
    ∷ exactly (codes "not found")
    ∷ [])

abbrev pub mentions_extraction : Regex
mentions_extraction =
    any_of
      (exactly (codes "extract") ∷ exactly (codes "price") ∷ exactly (codes "availability") ∷ [])

abbrev pub of_reason : Reason → Classification
of_reason Reason.identity_drift = Classification.identity_drift
of_reason Reason.ambiguous_value = Classification.ambiguous_value

-- The tests on the text, for an error of no class of the worker's own.
unfoldable pub classify_message : Text → Classification
classify_message message =
    if test mentions_limit message
    then Classification.rate_limited
    else if test mentions_block message
    then Classification.blocked
    else if test mentions_element message
    then Classification.stale_action
    else if test mentions_extraction message
    then Classification.stale_extractor
    else Classification.transient_infrastructure

unfoldable pub classify_failure : Unicode → Failure → Classification
classify_failure u (safety m) = Classification.invalid_input
classify_failure u (stale m) = Classification.stale_action
classify_failure u (validation reason m) = of_reason reason
classify_failure u (plain m) = classify_message (u.lower (safe_error (plain m)))

abbrev pub status_of : Failure → Status
status_of (validation reason m) = Status.needs_review
status_of _ = Status.failed

unfoldable pub report_of : Unicode → Failure → FailureReport
report_of u error = record { classification = classify_failure u error; message = safe_error error }
