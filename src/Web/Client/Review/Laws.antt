-- ===== src/Web/Client/Review/Laws.antt =====
-- What a review of a revision shows.
use price_scout.Base.{
  ℕ, Bool, true, false, ◌≡◌, ◌≢◌, refl, ap, ◌↔◌, ◌⊎◌, inl, inr, Option, none, some, List, [], ◌++◌,
}
use price_scout.Base.{ltb, ==_iff, find, find_sound, keep, Option-cases}
use price_scout.Base.Sorting.{sort_by_key-Leads, Leads}
use price_scout.Base.Text.{Text, codes, text_eq, text_eq_refl, eq_of_text_eq}
use price_scout.Regex.Members.{In, In-append, In-append_left, In-append_right}
use price_scout.Web.Types.{Monitor, MonitorRevision, Change, Review}
use price_scout.Web.Client.Request.{api, answered, refused}
use price_scout.Web.Client.Normalize.{older, or_empty}
use price_scout.Web.Client.Operations.{Browser, get_monitor}
use price_scout.Web.Client.Review.{
  same_text, same_number, title_of, sku_of, currency_of, steps_of, changes_between, change_unless,
  count_text, previous_of, review_of, get_review,
}

same_text_iff : (s t : Option Text) → (same_text s t ≡ true) ↔ (s ≡ t)
same_text_iff none none = (λ h. refl, λ h. refl)
same_text_iff none (some t) = (λ h. absurd cc, λ h. absurd cc)
same_text_iff (some s) none = (λ h. absurd cc, λ h. absurd cc)
same_text_iff (some s) (some t) =
    (λ h. ap some (eq_of_text_eq s t h), λ h. let e : s ≡ t = cc in rw e (text_eq_refl t))

same_number_iff : (m n : Option ℕ) → (same_number m n ≡ true) ↔ (m ≡ n)
same_number_iff none none = (λ h. refl, λ h. refl)
same_number_iff none (some n) = (λ h. absurd cc, λ h. absurd cc)
same_number_iff (some m) none = (λ h. absurd cc, λ h. absurd cc)
same_number_iff (some m) (some n) =
    (λ h. ap some ((==_iff m n).0 h), λ h. let e : m ≡ n = cc in rw e ((==_iff n n).1 refl))

-- The two revisions agree in what is compared.
abbrev pub IsUnchanged : Option MonitorRevision → Option MonitorRevision → Type 0
IsUnchanged p r =
    (title_of p ≡ title_of r)
    × (sku_of p ≡ sku_of r)
    × (currency_of p ≡ currency_of r)
    × (steps_of p ≡ steps_of r)

In-sum :
    {X Y : Type 0} (c : Change) (l m : List Change)
    → (In c l ↔ X)
    → (In c m ↔ Y)
    → In c (l ++ m) ↔ (X ⊎ Y)
In-sum c l m left right = (
  λ h. elim (In-append c l m h) [ inl k ↦ inl (left.0 k) | inr k ↦ inr (right.0 k) ],
  λ h. elim h [
    | inl x ↦ In-append_left c l m (left.1 x)
    | inr y ↦ In-append_right c l m (right.1 y)
  ],
)

change_unless-nil :
    (same : Bool) (field : Text) (before after : Option Text) (more : List Change)
    → change_unless same field before after ++ more ≡ []
    → (same ≡ true) × (more ≡ [])
change_unless-nil true field before after more h = (refl, h)
change_unless-nil false field before after more h = absurd cc

change_last :
    (same : Bool) (field : Text) (before after : Option Text)
    → change_unless same field before after ≡ []
    → same ≡ true
change_last true field before after h = refl
change_last false field before after h = absurd cc

changes_between_iff : (p r : Option MonitorRevision) → (changes_between p r ≡ []) ↔ IsUnchanged p r
unfolding changes_between
changes_between_iff p r = (
  λ h.
      let (title, h1) = change_unless-nil (same_text (title_of p) (title_of r)) _ _ _ _ h in
      let (sku, h2) = change_unless-nil (same_text (sku_of p) (sku_of r)) _ _ _ _ h1 in
      let (currency, h3) =
        change_unless-nil (same_text (currency_of p) (currency_of r)) _ _ _ _ h2 in
      let steps = change_last (same_number (steps_of p) (steps_of r)) _ _ _ h3 in
      (
        (same_text_iff _ _).0 title,
        (same_text_iff _ _).0 sku,
        (same_text_iff _ _).0 currency,
        (same_number_iff _ _).0 steps,
      ),
  λ (title, sku, currency, steps).
      rw
        (
          (same_text_iff _ _).1 title,
          (same_text_iff _ _).1 sku,
          (same_text_iff _ _).1 currency,
          (same_number_iff _ _).1 steps,
        )
        refl,
)

-- The revision before another one: the greatest of the lower generations, if there are any.
abbrev pub IsBefore : MonitorRevision → List MonitorRevision → Option MonitorRevision → Type 0
IsBefore r l previous =
    ((keep (λ x. ltb x.generation r.generation) l ≡ []) × (previous ≡ none))
    ⊎ ((p : MonitorRevision) × (previous ≡ some p)
        × Leads (λ x. x.generation) p (keep (λ x. ltb x.generation r.generation) l))

previous_of-IsBefore :
    (r : MonitorRevision) (l : List MonitorRevision) → IsBefore r l (previous_of r l)
previous_of-IsBefore r l =
    let below = keep (λ (x : MonitorRevision). ltb x.generation r.generation) l in
    elim (sort_by_key-Leads (λ x. x.generation) older (λ x y. refl) below) [
      | inl (e, sorted) ↦ inl (e, rw sorted refl)
      | inr (p, rest, sorted, leads) ↦ inr (p, rw sorted refl, leads)
    ]

abbrev pub change : Text → Option Text → Option Text → Change
change field before after = record { field = field; before = before; after = after }

-- A change that is to be listed: a field in which the two revisions differ, with its value in the
-- earlier one and its value in the later one.
abbrev pub IsDifference : Option MonitorRevision → Option MonitorRevision → Change → Type 0
IsDifference p r c =
    ((title_of p ≢ title_of r) × (c ≡ change (codes "product title") (title_of p) (title_of r)))
    ⊎ (((sku_of p ≢ sku_of r) × (c ≡ change (codes "sku") (sku_of p) (sku_of r)))
        ⊎ (((currency_of p ≢ currency_of r)
              × (c ≡ change (codes "currency") (currency_of p) (currency_of r)))
            ⊎ ((steps_of p ≢ steps_of r)
                × (c
                    ≡ change (codes "preparation actions") (some (count_text (steps_of p)))
                        (some (count_text (steps_of r)))))))

unless_iff :
    {X : Type 0} (same : Bool) (field : Text) (before after : Option Text) (c : Change)
    → ((same ≡ true) ↔ X)
    → In c (change_unless same field before after) ↔ ((¬ X) × (c ≡ change field before after))
unless_iff true field before after c equal =
    (λ h. absurd h, λ (differs, e). absurd (differs (equal.0 refl)))
unless_iff false field before after c equal = (
  λ h. elim h [ inl e ↦ ((λ x. let t = equal.1 x in absurd cc), e) | inr k ↦ absurd k ],
  λ (differs, e). inl e,
)

changes_between-In :
    (p r : Option MonitorRevision) (c : Change) → In c (changes_between p r) ↔ IsDifference p r c
unfolding changes_between
changes_between-In p r c =
    let title =
      unless_iff (same_text (title_of p) (title_of r)) (codes "product title") _ _ c
        (same_text_iff (title_of p) (title_of r)) in
    let sku =
      unless_iff (same_text (sku_of p) (sku_of r)) (codes "sku") _ _ c
        (same_text_iff (sku_of p) (sku_of r)) in
    let currency =
      unless_iff (same_text (currency_of p) (currency_of r)) (codes "currency") _ _ c
        (same_text_iff (currency_of p) (currency_of r)) in
    let steps =
      unless_iff (same_number (steps_of p) (steps_of r)) (codes "preparation actions") _ _ c
        (same_number_iff (steps_of p) (steps_of r)) in
    In-sum c _ _ title (In-sum c _ _ sku (In-sum c _ _ currency steps))

-- What a review shows of a monitor that was read.
abbrev pub IsReview : Monitor → Text → Review → Type 0
IsReview m revision_id review =
    (review.monitor ≡ m)
    × (review.revision.id ≡ revision_id)
    × ((previous : Option MonitorRevision) × (changes : List Change) × (review.comparison
          ≡ some (record { previous = previous; changes = some changes }))
        × IsBefore review.revision (or_empty m.revisions) previous
        × ((c : Change) → In c changes ↔ IsDifference previous (some review.revision) c)
        × ((changes ≡ []) ↔ IsUnchanged previous (some review.revision)))

-- A review compares the revision with the asked id with the one before it: the greatest of the
-- lower generations that the monitor has, if there are any. It lists exactly the fields among title,
-- SKU, currency and number of preparation steps in which the two differ, each with its earlier and
-- its later value, and so none exactly if they agree in all of these. Where the monitor is read but
-- has no such revision, `getReview` throws the error with status 404.
pub get_review-IsReview :
    (b : Browser) (monitor_id revision_id : Text) (m : Monitor)
    → get_monitor b monitor_id ≡ answered m
    → ((review : Review) × (get_review b monitor_id revision_id ≡ answered review)
        × IsReview m revision_id review)
      ⊎ ((find (λ r. text_eq r.id revision_id) (or_empty m.revisions) ≡ none)
          × (get_review b monitor_id revision_id
              ≡ refused (api (codes "Revision was not found on this monitor") 404 none)))
unfolding get_review
get_review-IsReview b monitor_id revision_id m read =
    elim (Option-cases
      (find (λ (r : MonitorRevision). text_eq r.id revision_id) (or_empty m.revisions))) [
        | inl missing ↦ inr (missing, rw (read, missing) refl)
        | inr (r, found) ↦
            let previous = previous_of r (or_empty m.revisions) in
            inl (
              review_of b m r,
              rw (read, found) refl,
              (
                refl,
                eq_of_text_eq r.id revision_id
                    (find_sound (λ r. text_eq r.id revision_id) (or_empty m.revisions) r found),
                (
                  previous,
                  changes_between previous (some r),
                  refl,
                  previous_of-IsBefore r (or_empty m.revisions),
                  changes_between-In previous (some r),
                  changes_between_iff previous (some r),
                ),
              ),
            )
      ]
