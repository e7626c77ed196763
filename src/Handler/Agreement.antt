-- ===== src/Handler/Agreement.antt =====
-- What `assertObservationsAgree` compares.
use price_scout.Base.{ℕ, Bool, true, ◌&&◌, ◌≡◌, refl, ◌↔◌, List, [], ◌∷◌, arith}
use price_scout.Base.{◌==◌}
use price_scout.Base.Text.{Text, text_eq_refl, eq_of_text_eq}
use price_scout.Base.Effects.{ok}
use price_scout.Contracts.{Observation}
use price_scout.Validation.Identity.Laws.{same_currency_iff}
use price_scout.Handler.Replay.{same_bool, same_entries, agree, assert_observations_agree}

-- Two observations that say the same of the offer; their titles and raw texts may differ.
pub record IsSameOffer (a b : Observation) : Type 0 where
  pub price : a.price_minor ≡ b.price_minor
  pub currency : a.currency ≡ b.currency
  pub stock : a.in_stock ≡ b.in_stock
  pub identity : a.identity_fingerprint ≡ b.identity_fingerprint
  pub variant : a.selected_variant ≡ b.selected_variant

same_entries_refl : (l : List (Text × Text)) → same_entries l l ≡ true
unfolding same_entries
same_entries_refl [] = refl
same_entries_refl ((k, v) ∷ l) = ground (arith, text_eq_refl k, text_eq_refl v, same_entries_refl l)

eq_of_same_entries : (l m : List (Text × Text)) → same_entries l m ≡ true → l ≡ m
unfolding same_entries
eq_of_same_entries [] [] h = refl
eq_of_same_entries ((k, v) ∷ l) ((j, w) ∷ m) h =
    ground (arith, eq_of_text_eq k j, eq_of_text_eq v w, eq_of_same_entries l m)
eq_of_same_entries _ _ h = ground arith

same_bool_eq : (a b : Bool) → same_bool a b ≡ true → a ≡ b
same_bool_eq a b h = ground arith

same_bool_refl : (a : Bool) → same_bool a a ≡ true
same_bool_refl a = ground arith

five :
    (a b c d e : Bool)
    → (a && (b && (c && (d && e)))) ≡ true
    → (a ≡ true) × (b ≡ true) × (c ≡ true) × (d ≡ true) × (e ≡ true)
five a b c d e h = ground arith

==-eq : (m n : ℕ) → (m == n) ≡ true → m ≡ n
==-eq m n h = ground arith

==-refl : (m : ℕ) → (m == m) ≡ true
==-refl m = ground arith

agree_sound : (a b : Observation) → agree a b ≡ true → IsSameOffer a b
agree_sound a b h =
    let (price, currency, stock, identity, variant) = five _ _ _ _ _ h in
    record {
      price = ==-eq a.price_minor b.price_minor price;
      currency = (same_currency_iff a.currency b.currency).0 currency;
      stock = same_bool_eq a.in_stock b.in_stock stock;
      identity = eq_of_text_eq a.identity_fingerprint b.identity_fingerprint identity;
      variant = eq_of_same_entries a.selected_variant b.selected_variant variant;
    }

agree_complete : (a b : Observation) → IsSameOffer a b → agree a b ≡ true
agree_complete a b r =
    rw
      (
        r.price,
        r.currency,
        r.stock,
        r.identity,
        r.variant,
        ==-refl b.price_minor,
        (same_currency_iff b.currency b.currency).1 refl,
        same_bool_refl b.in_stock,
        text_eq_refl b.identity_fingerprint,
        same_entries_refl b.selected_variant,
      )
      refl

-- Two observations agree exactly if they have the same price, currency, stock, fingerprint and
-- selected variant.
pub assert_observations_agree_iff :
    (a b : Observation) → (assert_observations_agree a b ≡ ok tt) ↔ IsSameOffer a b
unfolding assert_observations_agree
assert_observations_agree_iff a b =
    (λ h. agree_sound a b (ground arith), λ r. let e = agree_complete a b r in ground arith)
