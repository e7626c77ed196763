-- ===== src/Handler/Failure/Laws.antt =====
-- What a failure's report says.
use price_scout.Base.{
  ℕ, zero, suc, Bool-cases, ◌≤◌, Bool, true, false, ◌≡◌, refl, ◌⊎◌, inl, inr, ◌↔◌, arith,
}
use price_scout.Base.{[], ◌∷◌, All, length, take, length-take, if◌then◌else◌}
use price_scout.Base.Text.{Text}
use price_scout.Base.Unicode.{Unicode}
use price_scout.Base.Effects.{Reason, Failure, safety, stale, validation, plain}
use price_scout.Contracts.{Classification, Status}
use price_scout.Regex.{test}
use price_scout.Handler.Failure.{
  is_break, one_line, safe_error, classify_message, classify_failure, status_of, mentions_limit,
  mentions_block, mentions_element, mentions_extraction,
}

abbrev IsDrift : Classification → Type 0
IsDrift c = (c ≡ Classification.identity_drift) ⊎ (c ≡ Classification.ambiguous_value)

chain-IsDrift :
    (a b c d : Bool)
    → ¬ IsDrift (
        if a
        then Classification.rate_limited
        else if b
        then Classification.blocked
        else if c
        then Classification.stale_action
        else if d
        then Classification.stale_extractor
        else Classification.transient_infrastructure)
chain-IsDrift true b c d h = elim h [ inl e ↦ cc | inr e ↦ cc ]
chain-IsDrift false true c d h = elim h [ inl e ↦ cc | inr e ↦ cc ]
chain-IsDrift false false true d h = elim h [ inl e ↦ cc | inr e ↦ cc ]
chain-IsDrift false false false true h = elim h [ inl e ↦ cc | inr e ↦ cc ]
chain-IsDrift false false false false h = elim h [ inl e ↦ cc | inr e ↦ cc ]

message-IsDrift : (m : Text) → ¬ IsDrift (classify_message m)
unfolding classify_message
message-IsDrift m =
    chain-IsDrift (test mentions_limit m) (test mentions_block m) (test mentions_element m)
      (test mentions_extraction m)

-- A failed job needs a review exactly if its failure is classified as an identity drift or an
-- ambiguous value; no wording of another error is classified so.
needs_review_iff :
    (u : Unicode) (e : Failure)
    → (status_of e ≡ Status.needs_review) ↔ (
        (classify_failure u e ≡ Classification.identity_drift)
        ⊎ (classify_failure u e ≡ Classification.ambiguous_value))
unfolding classify_failure
needs_review_iff u (safety m) = (λ h. cc, λ h. elim h [ inl e ↦ cc | inr e ↦ cc ])
needs_review_iff u (stale m) = (λ h. cc, λ h. elim h [ inl e ↦ cc | inr e ↦ cc ])
needs_review_iff u (validation Reason.identity_drift m) = (λ h. inl refl, λ h. refl)
needs_review_iff u (validation Reason.ambiguous_value m) = (λ h. inr refl, λ h. refl)
needs_review_iff u (plain m) = (λ h. cc, λ h. absurd (message-IsDrift _ h))

abbrev IsUnbroken : Text → Type 0
IsUnbroken = All (λ c. is_break c ≡ false)

one_line-IsUnbroken : (b : Bool) (s : Text) → IsUnbroken (one_line b s)
unfolding one_line
one_line-IsUnbroken b [] = tt
one_line-IsUnbroken b (c ∷ s) = elim (Bool-cases (is_break c)) [
  | inl breaks ↦ ground (arith, one_line-IsUnbroken (is_break c) s)
  | inr plain_unit ↦ ground (arith, one_line-IsUnbroken (is_break c) s)
]

take-IsUnbroken : (n : ℕ) (s : Text) → IsUnbroken s → IsUnbroken (take n s)
take-IsUnbroken zero s h = tt
take-IsUnbroken (suc n) [] h = tt
take-IsUnbroken (suc n) (c ∷ s) (p, h) = (p, take-IsUnbroken n s h)

-- A reported message has at most 1000 units and no line break.
pub safe_error-IsShort :
    (e : Failure) → (length (safe_error e) ≤ 1000) × All (λ c. is_break c ≡ false) (safe_error e)
unfolding safe_error
safe_error-IsShort e = (length-take 1000 _, take-IsUnbroken 1000 _ (one_line-IsUnbroken false _))
