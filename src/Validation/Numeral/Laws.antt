-- ===== src/Validation/Numeral/Laws.antt =====
-- What the numeral with one point and two digits behind it stands for.
use price_scout.Base.{
  ℕ, suc, ◌+◌, ◌-◌, ◌≡◌, refl, ap, ◌∙◌, Bool, true, false, not, none, some, List, [], ◌∷◌, ◌++◌,
}
use price_scout.Base.{arith, length, length-append, take, drop, keep, all, ◌==◌}
use price_scout.Base.Text.{Text, is_digit}
use price_scout.Validation.Numeral.{last_index, without, one_separator, choose, plain_numeral}

module _ {ℓ} {A : Type ℓ} where
  take-append : (xs ys : List A) → take (length xs) (xs ++ ys) ≡ xs
  take-append [] ys = refl
  take-append (x ∷ xs) ys = ap (λ l. x ∷ l) (take-append xs ys)

  drop-append : (xs ys : List A) (y : A) → drop (suc (length xs)) (xs ++ y ∷ ys) ≡ ys
  drop-append [] ys y = refl
  drop-append (x ∷ xs) ys y = drop-append xs ys y

  pub keep-all : (p : A → Bool) (xs : List A) → all p xs ≡ true → keep p xs ≡ xs
  keep-all p [] h = refl
  keep-all p (x ∷ xs) h =
      let here : p x ≡ true = ground arith in rw (here, keep-all p xs (ground arith)) refl

  pub all-imp :
      (p q : A → Bool)
      → ((x : A) → p x ≡ true → q x ≡ true)
      → (xs : List A) → all p xs ≡ true
      → all q xs ≡ true
  all-imp p q f [] h = refl
  all-imp p q f (x ∷ xs) h = ground (arith, f x, all-imp p q f xs)

module _ {ℓ} {A : Type ℓ} (p : A → Bool) where
  pub all-append : (xs ys : List A) → all p xs ≡ true → all p ys ≡ true → all p (xs ++ ys) ≡ true
  all-append [] ys h k = k
  all-append (x ∷ xs) ys h k = ground (arith, all-append xs ys)

digit_not : (u c : ℕ) → is_digit u ≡ false → is_digit c ≡ true → not (c == u) ≡ true
digit_not u c h k = ground arith

last_index-none : (u : ℕ) (s : Text) → all (λ c. not (c == u)) s ≡ true → last_index u s ≡ none
unfolding last_index
last_index-none u [] h = refl
last_index-none u (c ∷ s) h =
    let other : c == u ≡ false = ground arith in rw (last_index-none u s (ground arith), other) refl

last_index-append :
    (u i : ℕ) (ds tail : Text)
    → last_index u tail ≡ some i
    → last_index u (ds ++ tail) ≡ some (length ds + i)
unfolding last_index
last_index-append u i [] tail h = h ∙ ap some (omega arith)
last_index-append u i (c ∷ ds) tail h = rw (last_index-append u i ds tail h) (ap some (omega arith))

module _ (ds : Text) (d e : ℕ) (digits : all is_digit ds ≡ true) (d_digit : is_digit d ≡ true)
    (e_digit : is_digit e ≡ true) where
  pub others :
      (u : ℕ)
      → is_digit u ≡ false
      → (u == b'.') ≡ false
      → all (λ c. not (c == u)) (ds ++ b'.' ∷ d ∷ e ∷ []) ≡ true
  others u h k =
      all-append (λ c. not (c == u)) ds (b'.' ∷ d ∷ e ∷ [])
        (all-imp is_digit (λ c. not (c == u)) (λ c. digit_not u c h) ds digits)
        (let a = digit_not u d h d_digit in let b = digit_not u e h e_digit in ground arith)

  last_point : last_index b'.' (ds ++ b'.' ∷ d ∷ e ∷ []) ≡ some (length ds)
  unfolding last_index
  last_point =
      let behind = last_index-none b'.' (d ∷ e ∷ []) (ground arith) in
      last_index-append b'.' 0 ds (b'.' ∷ d ∷ e ∷ []) (rw (last_index, behind) refl)
      ∙ ap some (omega arith)

  one_separator-cents :
      one_separator b'.' (length ds) (ds ++ b'.' ∷ d ∷ e ∷ []) ≡ ds ++ b'.' ∷ d ∷ e ∷ []
  unfolding one_separator
  one_separator-cents =
      let s = ds ++ b'.' ∷ d ∷ e ∷ [] in
      let whole : without b'.' (take (length ds) s) ≡ ds =
        ap (without b'.') (take-append ds (b'.' ∷ d ∷ e ∷ []))
        ∙ keep-all (λ c. not (c == b'.')) ds
            (all-imp is_digit (λ c. not (c == b'.')) (λ c. digit_not b'.' c refl) ds digits) in
      let two : length s - length ds - 1 == 3 ≡ false =
        ground (arith, length-append {0} ds (b'.' ∷ d ∷ e ∷ [])) in
      rw (two, whole, drop-append ds (d ∷ e ∷ []) b'.') refl

  -- A point with two digits behind it is a decimal point.
  pub plain_numeral-cents : plain_numeral (ds ++ b'.' ∷ d ∷ e ∷ []) ≡ ds ++ b'.' ∷ d ∷ e ∷ []
  unfolding plain_numeral choose
  plain_numeral-cents =
      let no_comma = last_index-none b',' (ds ++ b'.' ∷ d ∷ e ∷ []) (others b',' refl refl) in
      rw (no_comma, last_point) one_separator-cents
