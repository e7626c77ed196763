-- ===== src/Web/Pages/Monitor/Laws.antt =====
-- Which revision the operator is asked about, and when the page says that the target is met.
use price_scout.Base.{
  ℕ, ◌<◌, ◌≡◌, refl, ap, ◌∙◌, ◌⊎◌, inl, inr, ◌↔◌, ◌&&◌, ◌||◌, not, Bool, true, false, Option, none,
  some, List, [], ◌∷◌, arith,
}
use price_scout.Base.{ltb, lt→ltb, find, head, keep, chain, Bool-cases}
use price_scout.Base.Sorting.{sort_by, sort_by_key-Leads, Leads}
use price_scout.Base.Sorting.Filter.{keep-sort_by}
use price_scout.Base.Text.{Text, codes, text_eq_refl, eq_of_text_eq}
use price_scout.Browser.{present}
use price_scout.Web.Types.{Monitor, MonitorRevision, Observation, PriceCondition}
use price_scout.Web.Client.Normalize.{older, or_empty}
use price_scout.Web.Pages.Monitor.{
  is_text, is_candidate, latest_candidate, latest_shown, target, target_met, is_true, is_below,
}

find-keep : (p : MonitorRevision → Bool) (xs : List MonitorRevision) → find p xs ≡ head (keep p xs)
find-keep p [] = refl
find-keep p (x ∷ xs) = elim (Bool-cases (p x)) [ inl e ↦ rw e refl | inr e ↦ rw e (find-keep p xs) ]

newest_candidate :
    (m : Monitor)
    → ((keep is_candidate (or_empty m.revisions) ≡ []) × (latest_candidate m ≡ none))
      ⊎ ((r : MonitorRevision) × (latest_candidate m ≡ some r)
          × Leads (λ x. x.generation) r (keep is_candidate (or_empty m.revisions)))
unfolding latest_candidate
newest_candidate m =
    let l = or_empty m.revisions in
    let first : find is_candidate (sort_by older l) ≡ head (sort_by older (keep is_candidate l)) =
      find-keep is_candidate (sort_by older l)
      ∙ ap head (
          keep-sort_by (λ (x : MonitorRevision). x.generation) older (λ x y. refl) is_candidate
            l) in
    elim (sort_by_key-Leads (λ x. x.generation) older (λ x y. refl) (keep is_candidate l)) [
      | inl (e, sorted) ↦ inl (e, first ∙ rw sorted refl)
      | inr (r, rest, sorted, leads) ↦ inr (r, first ∙ rw sorted refl, leads)
    ]

-- A revision without a date of activation, or one that is marked for review.
abbrev pub IsPending : MonitorRevision → Type 0
IsPending r =
    (r.activated_at ≡ none)
    ⊎ ((r.activated_at ≡ some []) ⊎ (r.validation_state ≡ some (codes "needs_review")))

absent_iff : (t : Option Text) → (present t ≡ false) ↔ ((t ≡ none) ⊎ (t ≡ some []))
absent_iff none = (λ h. inl refl, λ h. refl)
absent_iff (some []) = (λ h. inr refl, λ h. refl)
absent_iff (some (c ∷ t)) = (λ h. absurd cc, λ h. elim h [ inl e ↦ absurd cc | inr e ↦ absurd cc ])

is_text_iff : (t : Text) (s : Option Text) → (is_text t s ≡ true) ↔ (s ≡ some t)
is_text_iff t none = (λ h. absurd cc, λ h. absurd cc)
is_text_iff t (some s) =
    (λ h. ap some (eq_of_text_eq s t h), λ h. let e : s ≡ t = cc in rw e (text_eq_refl t))

or_iff : (a b : Bool) → ((not a || b) ≡ true) ↔ ((a ≡ false) ⊎ (b ≡ true))
or_iff true b = (λ h. inr h, λ h. elim h [ inl e ↦ absurd cc | inr e ↦ e ])
or_iff false b = (λ h. inl refl, λ h. refl)

is_candidate_iff : (r : MonitorRevision) → (is_candidate r ≡ true) ↔ IsPending r
is_candidate_iff r =
    let split =
      or_iff (present r.activated_at) (is_text (codes "needs_review") r.validation_state) in
    (
      λ h. elim (split.0 h) [
        | inl e ↦ elim ((absent_iff r.activated_at).0 e) [ inl n ↦ inl n | inr n ↦ inr (inl n) ]
        | inr e ↦ inr (inr ((is_text_iff (codes "needs_review") r.validation_state).0 e))
      ],
      λ h. elim h [
        | inl n ↦ split.1 (inl ((absent_iff r.activated_at).1 (inl n)))
        | inr (inl n) ↦ split.1 (inl ((absent_iff r.activated_at).1 (inr n)))
        | inr (inr n) ↦ split.1 (inr ((is_text_iff (codes "needs_review") r.validation_state).1 n))
      ],
    )

-- The revision that the panel for a confirmation is drawn for is the first one of the greatest
-- generation among the candidates, and there is none only if there is no candidate. A candidate is
-- a revision without a date of activation or with the state `needs_review`. So a revision that was
-- rejected, which the control plane does not confirm any more, counts as a candidate if it was
-- never active.
pub latest_candidate-Leads :
    (m : Monitor)
    → (((keep is_candidate (or_empty m.revisions) ≡ []) × (latest_candidate m ≡ none))
        ⊎ ((r : MonitorRevision) × (latest_candidate m ≡ some r)
            × Leads (λ x. x.generation) r (keep is_candidate (or_empty m.revisions))))
      × ((r : MonitorRevision) → (is_candidate r ≡ true) ↔ IsPending r)
      × ((r : MonitorRevision)
          → r.validation_state ≡ some (codes "rejected")
          → r.activated_at ≡ none
          → is_candidate r ≡ true)
latest_candidate-Leads m =
    (newest_candidate m, is_candidate_iff, λ r rejected never. (is_candidate_iff r).1 (inl never))

is_true_iff : (b : Option Bool) → is_true b ≡ true → b ≡ some true
is_true_iff none h = absurd cc
is_true_iff (some b) h = ap some h

-- A known price is below a known limit, and in stock where that is asked for.
abbrev IsWithin : Option ℕ → Option ℕ → Option Bool → Option Bool → Type 0
IsWithin price limit required in_stock =
    (p : ℕ) × (l : ℕ) × (price ≡ some p)
    × (limit ≡ some l)
    × (p < l)
    × (required ≡ some true → in_stock ≡ some true)

IsWithin-iff :
    (price limit : Option ℕ) (required in_stock : Option Bool)
    → (is_below price limit && (not (is_true required) || is_true in_stock) ≡ true)
      ↔ IsWithin price limit required in_stock
IsWithin-iff (some p) (some l) required in_stock = (
  λ h. (
    p,
    l,
    refl,
    refl,
    ground arith,
    λ e. is_true_iff in_stock (let asked : is_true required ≡ true = ap is_true e in ground arith),
  ),
  λ (p2, l2, e, f, less, stocked).
      let below : p < l = let a : p ≡ p2 = cc in let b : l ≡ l2 = cc in omega arith in
      let small : ltb p l ≡ true = lt→ltb p l below in
      elim (Bool-cases (is_true required)) [
        | inl asked ↦ rw (small, asked, stocked (is_true_iff required asked)) refl
        | inr free ↦ rw (small, free) refl
      ],
)
IsWithin-iff none limit required in_stock =
    (λ h. absurd cc, λ (p, l, e, f, less, stocked). absurd cc)
IsWithin-iff (some p) none required in_stock =
    (λ h. absurd cc, λ (p2, l, e, f, less, stocked). absurd cc)

-- The page says that the target is met exactly if the latest observation that it shows has a price
-- below the threshold of the condition, and is in stock where the condition asks for that.
pub target_met_iff :
    (m : Monitor)
    → (target_met m ≡ true) ↔ (
        (price : ℕ) × (limit : ℕ) × (chain (latest_shown m) (λ (o : Observation). o.price_minor)
          ≡ some price)
        × (chain m.condition (λ (c : PriceCondition). c.price_below_minor) ≡ some limit)
        × (price < limit)
        × (chain m.condition (λ (c : PriceCondition). some c.require_in_stock) ≡ some true
            → chain (latest_shown m) (λ (o : Observation). o.in_stock) ≡ some true))
unfolding target_met
target_met_iff m =
    IsWithin-iff (chain (latest_shown m) (λ o. o.price_minor)) (target m)
      (chain m.condition (λ c. some c.require_in_stock)) (chain (latest_shown m) (λ o. o.in_stock))
