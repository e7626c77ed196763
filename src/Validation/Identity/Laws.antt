-- ===== src/Validation/Identity/Laws.antt =====
-- When `validateObservation` accepts an observation for a plan.
use price_scout.Base.{◌≡◌, refl, ◌⊎◌, inl, inr, ◌↔◌, Bool, true, false, not, List, [], ◌∷◌, arith}
use price_scout.Base.{All, if◌then◌else◌}
use price_scout.Base.Text.{Text, text_eq_refl, eq_of_text_eq}
use price_scout.Base.Unicode.{Unicode}
use price_scout.Base.Effects.{Check, Reason, ok, err, ◌>>◌, identity_drift}
use price_scout.Contracts.{Currency, Identity, Plan, Observation}
use price_scout.Contracts.Entries.{lookup}
use price_scout.Validation.Price.{same_currency}
use price_scout.Validation.Title.{normalize, dissimilar, or_empty}
use price_scout.Validation.Identity.{
  refuse_unless, same_text, check_product, check_variants, validate_observation,
}
use price_scout.Browser.{present}

pub same_currency_iff : (c d : Currency) → (same_currency c d ≡ true) ↔ (c ≡ d)
same_currency_iff c d = (λ h. to c d h, λ e. rw e (self d))
  where
    to : (c d : Currency) → same_currency c d ≡ true → c ≡ d
    to c d h = ground arith

    self : (d : Currency) → same_currency d d ≡ true
    self d = ground arith

refuse_unless_iff : (b : Bool) (r : Reason) (m : Text) → (refuse_unless b r m ≡ ok tt) ↔ (b ≡ true)
refuse_unless_iff b r m = ground arith

unlike_false :
    (unlike : Bool) (n : Text)
    → refuse_unless (not unlike) identity_drift n ≡ ok tt
    → unlike ≡ false
unlike_false true n h = cc
unlike_false false n h = refl

-- The decision of `check_product`, over the outcomes of its two tests.
product_decision :
    (a b skus unlike : Bool) (m n : Text)
    → ((if a
          then if b
            then refuse_unless skus identity_drift m
            else refuse_unless (not unlike) identity_drift n
          else refuse_unless (not unlike) identity_drift n)
        ≡ ok tt)
      ↔ ((a ≡ true → b ≡ true → skus ≡ true) × ((a ≡ false) ⊎ (b ≡ false) → unlike ≡ false))
product_decision true true skus unlike m n = (
  λ h. (λ _ _. (refuse_unless_iff skus _ m).0 h, λ k. elim k [ inl e ↦ cc | inr e ↦ cc ]),
  λ h. (refuse_unless_iff skus _ m).1 (h.0 refl refl),
)
product_decision true false skus unlike m n =
    (λ h. (λ _ e. cc, λ _. unlike_false unlike n h), λ h. rw (h.1 (inr refl)))
product_decision false b skus unlike m n =
    (λ h. (λ e. cc, λ _. unlike_false unlike n h), λ h. rw (h.1 (inl refl)))

three_parts :
    (b : Bool) (r : Reason) (m : Text) (x y : Check)
    → ((refuse_unless b r m >> (x >> y)) ≡ ok tt) ↔ ((b ≡ true) × (x ≡ ok tt) × (y ≡ ok tt))
three_parts true r m (ok a) y = (λ h. (refl, refl, h), λ h. h.2)
three_parts true r m (err e) y = (λ h. cc, λ h. cc (h.1))
three_parts false r m x y = (λ h. cc, λ h. cc (h.0))

module _ (u : Unicode) where
  -- Equal up to case, compatibility forms, punctuation and spacing.
  abbrev pub Alike : Text → Text → Type 0
  Alike s t = normalize u s ≡ normalize u t

  pub record IsSameProduct (identity : Identity) (observation : Observation) : Type 0 where
    pub skus :
        present identity.sku ≡ true
        → present observation.sku ≡ true
        → Alike (or_empty identity.sku) (or_empty observation.sku)
    pub titles :
        (present identity.sku ≡ false) ⊎ (present observation.sku ≡ false)
        → dissimilar u identity.title observation.title ≡ false

  abbrev pub AllSelected : List (Text × Text) → List (Text × Text) → Type 0
  AllSelected requested selected =
      All (λ (e : Text × Text). Alike (or_empty (lookup e.0 selected)) e.1) requested

  pub record Belongs (observation : Observation) (plan : Plan) : Type 0 where
    pub currency : observation.currency ≡ plan.expected_currency
    pub product : IsSameProduct plan.identity observation
    pub variants : AllSelected plan.identity.requested_variant observation.selected_variant

  same_text_iff : (s t : Text) → (same_text u s t ≡ true) ↔ Alike s t
  same_text_iff s t =
      (eq_of_text_eq (normalize u s) (normalize u t), λ e. rw e (text_eq_refl (normalize u t)))

  check_variants_iff :
      (requested selected : List (Text × Text))
      → (check_variants u requested selected ≡ ok tt) ↔ AllSelected requested selected
  unfolding check_variants
  check_variants_iff [] selected = (λ h. tt, λ h. refl)
  check_variants_iff ((a, expected) ∷ rest) selected =
      let here = same_text_iff (or_empty (lookup a selected)) expected in
      let later = check_variants_iff rest selected in
      (
        λ h. (here.0 (ground arith), later.0 (ground arith)),
        λ h. let e = here.1 h.0 in let f = later.1 h.1 in ground arith,
      )

  check_product_iff :
      (identity : Identity) (o : Observation)
      → (check_product u identity o.title o.sku ≡ ok tt) ↔ IsSameProduct identity o
  unfolding check_product
  check_product_iff identity o =
      let same = same_text_iff (or_empty identity.sku) (or_empty o.sku) in
      let decision = product_decision (present identity.sku) (present o.sku) _ _ _ _ in
      (
        λ h.
            let (skus, titles) = decision.0 h in
            record { skus = λ a b. same.0 (skus a b); titles = titles },
        λ r. decision.1 (λ a b. same.1 (r.skus a b), r.titles),
      )

  -- `validateObservation` accepts exactly the observations in the expected currency, of the same
  -- product, with every requested variant selected.
  pub validate_observation_iff :
      (o : Observation) (plan : Plan) → (validate_observation u o plan ≡ ok tt) ↔ Belongs o plan
  unfolding validate_observation
  validate_observation_iff o plan =
      let currency = same_currency_iff o.currency plan.expected_currency in
      let product = check_product_iff plan.identity o in
      let variants = check_variants_iff plan.identity.requested_variant o.selected_variant in
      let parts = three_parts _ _ _ _ _ in
      (
        λ h.
            let (a, b, c) = parts.0 h in
            record { currency = currency.0 a; product = product.0 b; variants = variants.0 c },
        λ r. parts.1 (currency.1 r.currency, product.1 r.product, variants.1 r.variants),
      )
