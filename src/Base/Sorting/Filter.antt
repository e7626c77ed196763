-- ===== src/Base/Sorting/Filter.antt =====
-- Filtering a list that is sorted by falling keys is sorting the filtered list.
use Prim.Native.Nat.{ℕ, ◌≤◌}
use mathlib.Core.Path.{◌≡◌, refl, ap, sym, ◌∙◌}
use mathlib.Core.Logic.{inl, inr}
use mathlib.Core.Bool.{Bool, true, false}
use mathlib.Core.List.{List, [], ◌∷◌}
use native.Mathlib.Omega.{arith}
use price_scout.Base.Tests.{ltb, Bool-cases, if◌then◌else◌}
use price_scout.Base.Lists.{All, All-imp, keep}
use price_scout.Base.Sorting.{insert_by, sort_by}

module _ {ℓ} {A : Type ℓ} (key : A → ℕ) (after : A → A → Bool)
    (falls : (x y : A) → after x y ≡ ltb (key x) (key y)) where
  abbrev Below : ℕ → List A → Type 0
  Below m = All (λ (y : A). key y ≤ m)

  abbrev IsFalling : List A → Type 0
  IsFalling [] = Unit {0}
  IsFalling (x ∷ xs) = Below (key x) xs × IsFalling xs

  Below-mono : (m n : ℕ) (xs : List A) → m ≤ n → Below m xs → Below n xs
  Below-mono m n xs h = All-imp (λ y k. omega arith) xs

  insert_by-Below :
      (m : ℕ) (x : A) (xs : List A) → key x ≤ m → Below m xs → Below m (insert_by after x xs)
  unfolding insert_by
  insert_by-Below m x [] h k = (h, tt)
  insert_by-Below m x (y ∷ ys) h (k, l) = elim (Bool-cases (after x y)) [
    | inl e ↦ rw e (k, insert_by-Below m x ys h l)
    | inr e ↦ rw e (h, (k, l))
  ]

  insert_by-IsFalling : (x : A) (xs : List A) → IsFalling xs → IsFalling (insert_by after x xs)
  unfolding insert_by
  insert_by-IsFalling x [] h = (tt, tt)
  insert_by-IsFalling x (y ∷ ys) (h, k) = elim (Bool-cases (after x y)) [
    | inl e ↦
        let less : ltb (key x) (key y) ≡ true = sym (falls x y) ∙ e in
        rw e (insert_by-Below (key y) x ys (ground arith) h, insert_by-IsFalling x ys k)
    | inr e ↦
        let more : ltb (key x) (key y) ≡ false = sym (falls x y) ∙ e in
        rw e ((ground arith, Below-mono (key y) (key x) ys (ground arith) h), (h, k))
  ]

  sort_by-IsFalling : (xs : List A) → IsFalling (sort_by after xs)
  unfolding sort_by
  sort_by-IsFalling [] = tt
  sort_by-IsFalling (x ∷ xs) = insert_by-IsFalling x (sort_by after xs) (sort_by-IsFalling xs)

  -- A greatest element goes to the front.
  insert_by-greatest : (x : A) (xs : List A) → Below (key x) xs → insert_by after x xs ≡ x ∷ xs
  unfolding insert_by
  insert_by-greatest x [] h = refl
  insert_by-greatest x (y ∷ ys) (h, k) =
      let first : after x y ≡ false = falls x y ∙ ground arith in rw first refl

  module _ (p : A → Bool) where
    keep-Below : (m : ℕ) (xs : List A) → Below m xs → Below m (keep p xs)
    keep-Below m [] h = tt
    keep-Below m (x ∷ xs) (h, k) = elim (Bool-cases (p x)) [
      | inl e ↦ rw e (h, keep-Below m xs k)
      | inr e ↦ rw e (keep-Below m xs k)
    ]

    keep-insert_by :
        (x : A) (xs : List A)
        → IsFalling xs
        → keep p (insert_by after x xs) ≡ (if p x then insert_by after x (keep p xs) else keep p xs)
    unfolding insert_by
    keep-insert_by x [] h = refl
    keep-insert_by x (y ∷ ys) (h, k) = elim (Bool-cases (after x y)) [
      | inl e ↦ elim (Bool-cases (p y)) [
        | inl f ↦ elim (Bool-cases (p x)) [
          | inl g ↦ rw (e, f, g, e) (ap (λ l. y ∷ l) (keep-insert_by x ys k ∙ rw g refl))
          | inr g ↦ rw (e, f, g) (ap (λ l. y ∷ l) (keep-insert_by x ys k ∙ rw g refl))
        ]
        | inr f ↦ rw (e, f) (keep-insert_by x ys k)
      ]
      | inr e ↦
          let more : ltb (key x) (key y) ≡ false = sym (falls x y) ∙ e in
          let below : Below (key x) (y ∷ ys) =
            (ground arith, Below-mono (key y) (key x) ys (ground arith) h) in
          elim (Bool-cases (p x)) [
            | inl g ↦
                rw (e, g)
                  (sym (insert_by-greatest x (keep p (y ∷ ys)) (keep-Below (key x) (y ∷ ys) below)))
            | inr g ↦ rw (e, g) refl
          ]
    ]

    -- The filtered sort, element by element.
    pub keep-sort_by : (xs : List A) → keep p (sort_by after xs) ≡ sort_by after (keep p xs)
    unfolding sort_by
    keep-sort_by [] = refl
    keep-sort_by (x ∷ xs) = elim (Bool-cases (p x)) [
      | inl e ↦
          keep-insert_by x (sort_by after xs) (sort_by-IsFalling xs) ∙ rw (e, keep-sort_by xs) refl
      | inr e ↦
          keep-insert_by x (sort_by after xs) (sort_by-IsFalling xs) ∙ rw (e, keep-sort_by xs) refl
    ]
