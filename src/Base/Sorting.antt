-- ===== src/Base/Sorting.antt =====
-- `values.sort(compare)`: the stable sort of the language, and which value it puts first. Where a
-- comparison is not consistent, as with dates that are none, the language leaves the order open,
-- and this is one that it allows.
pub mod Filter
use Prim.Native.Nat.{ℕ, ◌≤◌, ◌<◌}
use mathlib.Core.Path.{◌≡◌, refl, ap}
use mathlib.Core.Logic.{◌⊎◌, inl, inr}
use mathlib.Core.Bool.{Bool}
use mathlib.Core.List.{List, [], ◌∷◌, ◌++◌}
use native.Mathlib.Omega.{arith}
use price_scout.Base.Tests.{ltb, Bool-cases, if◌then◌else◌}
use price_scout.Base.Lists.{All, All-imp}

module _ {ℓ} {A : Type ℓ} (after : A → A → Bool) where
  -- `after x y` is `compare(x, y) > 0`.
  unfoldable pub insert_by : A → List A → List A
  insert_by x [] = x ∷ []
  insert_by x (y ∷ ys) = let later = y ∷ insert_by x ys in if after x y then later else x ∷ y ∷ ys

  unfoldable pub sort_by : List A → List A
  sort_by [] = []
  sort_by (x ∷ xs) = insert_by x (sort_by xs)

-- The first of the elements with the greatest key.
abbrev pub Leads {ℓ} : {A : Type ℓ} → (A → ℕ) → A → List A → Type ℓ
Leads {A} key x xs =
    (pre : List A) × (post : List A) × (xs ≡ pre ++ x ∷ post)
    × All (λ y. key y < key x) pre
    × All (λ y. key y ≤ key x) post

module _ {ℓ} {A : Type ℓ} (key : A → ℕ) where
  below-All :
      (m : ℕ) (pre : List A) (x : A) (post : List A)
      → key x ≤ m
      → All (λ y. key y < key x) pre
      → All (λ y. key y ≤ key x) post
      → All (λ y. key y ≤ m) (pre ++ x ∷ post)
  below-All m [] x post k h l = (k, All-imp (λ y p. omega arith) post l)
  below-All m (y ∷ pre) x post k (h, hs) l = (omega arith, below-All m pre x post k hs l)

  module _ {κ} (P : A → Type κ) (after : A → A → Bool) where
    -- The comparison is by falling keys wherever `P` holds.
    abbrev pub Falls : Type (ℓ ⊔ κ)
    Falls = (x y : A) → P x → P y → after x y ≡ ltb (key x) (key y)

    abbrev Sorts : List A → Type (ℓ ⊔ κ)
    Sorts xs =
        ((xs ≡ []) × (sort_by after xs ≡ []))
        ⊎ ((x : A) × (rest : List A) × (sort_by after xs ≡ x ∷ rest) × P x × Leads key x xs)

    insert_by-Sorts : Falls → (x : A) (xs : List A) → P x → Sorts xs → Sorts (x ∷ xs)
    unfolding sort_by insert_by
    insert_by-Sorts falls x xs p (inl (e, sorted)) =
        inr (x, [], rw sorted refl, p, ([], xs, refl, tt, rw e tt))
    insert_by-Sorts falls x xs p (inr (y, rest, sorted, q, (pre, post, split, low, high))) =
        elim (Bool-cases (ltb (key x) (key y))) [
          | inl less ↦ inr (
            y,
            insert_by after x rest,
            rw (sorted, falls x y p q, less) refl,
            q,
            (x ∷ pre, post, ap (◌∷◌ x) split, (ground arith, low), high),
          )
          | inr more ↦ inr (
            x,
            y ∷ rest,
            rw (sorted, falls x y p q, more) refl,
            p,
            ([], xs, refl, tt, rw split (below-All (key x) pre y post (ground arith) low high)),
          )
        ]

    pub sort_by-Leads : Falls → (xs : List A) → All P xs → Sorts xs
    unfolding sort_by
    sort_by-Leads falls [] h = inl (refl, refl)
    sort_by-Leads falls (x ∷ xs) (p, h) = insert_by-Sorts falls x xs p (sort_by-Leads falls xs h)

  All-unit : (xs : List A) → All (λ _. Unit {0}) xs
  All-unit [] = tt
  All-unit (x ∷ xs) = (tt, All-unit xs)

  -- A sort by falling keys puts the first of the greatest first.
  pub sort_by_key-Leads :
      (after : A → A → Bool)
      → ((x y : A) → after x y ≡ ltb (key x) (key y))
      → (xs : List A)
      → ((xs ≡ []) × (sort_by after xs ≡ []))
        ⊎ ((x : A) × (rest : List A) × (sort_by after xs ≡ x ∷ rest) × Leads key x xs)
  sort_by_key-Leads after falls xs =
      elim (sort_by-Leads (λ _. Unit {0}) after (λ x y _ _. falls x y) xs (All-unit xs)) [
        | inl empty ↦ inl empty
        | inr (x, rest, sorted, _, leads) ↦ inr (x, rest, sorted, leads)
      ]
