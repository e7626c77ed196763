-- ===== src/Web/Pages/Execution.antt =====
-- `ExecutionPage` of web/src/pages/ExecutionPage.tsx: what the page of an execution shows.
use price_scout.Base.{
  ℕ, zero, suc, Bool, true, false, not, ◌&&◌, ◌||◌, Option, none, some, List, [], ◌∷◌, ◌++◌,
}
use price_scout.Base.{keep, or_else, if◌then◌else◌}
use price_scout.Base.Text.{Text, codes, text_eq, show, is_digit, is_lower, is_upper}
use price_scout.Browser.{present}
use price_scout.Web.Types.{
  Execution, ExecutionError, text, described, Artifact, ExecutionDiagnostics,
}
use price_scout.Web.Client.Normalize.{or_empty}
use price_scout.Web.Format.{labelize}

abbrev pub error_text : Option ExecutionError → Option Text
error_text none = none
error_text (some (text t)) = some t
error_text (some (described message detail)) = message

abbrev error_detail : Option ExecutionError → Option Text
error_detail (some (described message detail)) = if present detail then detail else none
error_detail _ = none

abbrev is_screenshot : Artifact → Bool
is_screenshot a = text_eq a.kind (codes "screenshot")

abbrev pub screenshots : Execution → List Artifact
screenshots e = keep is_screenshot (or_empty e.artifacts)

abbrev pub other_artifacts : Execution → List Artifact
other_artifacts e = keep (λ a. not (is_screenshot a)) (or_empty e.artifacts)

abbrev is_there {ℓ} : {A : Type ℓ} → Option A → Bool
is_there none = false
is_there (some a) = true

abbrev pub has_plan_signals : Option ExecutionDiagnostics → Bool
has_plan_signals none = false
has_plan_signals (some d) =
    is_there d.cache_status || is_there d.model_call_count || is_there d.repair_source

pub record ErrorBox : Type 0 where
  pub title : Text
  pub message : Text
  pub detail : Option Text

-- An empty message shows no box.
abbrev box : Execution → Option Text → Option ErrorBox
box e none = none
box e (some []) = none
box e (some (c ∷ s)) = some (record {
  title = labelize (or_else e.failure_classification (some (codes "Execution failed")));
  message = c ∷ s;
  detail = error_detail e.error;
})

abbrev pub error_box : Execution → Option ErrorBox
error_box e = box e (error_text e.error)

-- The number of the generation, of which 0 counts as none.
abbrev pub generation_text : Option ℕ → Text
generation_text none = codes "—"
generation_text (some zero) = codes "—"
generation_text (some (suc n)) = codes "G" ++ show (suc n)

-- `replace(/([a-z0-9])([A-Z])/g, "$1_$2")`, behind a unit that is or is not of the first class
unfoldable pub split_words : Bool → Text → Text
split_words behind [] = []
split_words behind (c ∷ s) =
    let rest = split_words (is_lower c || is_digit c) s in
    if behind && is_upper c then b'_' ∷ c ∷ rest else c ∷ rest

abbrev pub timing_label : Text → Text
timing_label key = labelize (some (split_words false key))
