-- ===== src/Validation/Price/Scanned.antt =====
-- The one numeral that `parsePrice` finds in digits with a point and two more.
use price_scout.Base.{ℕ, zero, suc, ◌-◌, ◌≤◌, ◌≡◌, refl, sym, ap, true, arith}
use price_scout.Base.{
  List, [], ◌∷◌, ◌++◌, All, all, length, length-append, take, lt→ltb, Option, none, some, Option,
  none, some,
}
use price_scout.Base.Text.{Text, is_digit}
use mathlib.Core.Path.{subst}
use price_scout.Regex.{Regex, Pos, seq, alt, digit, plus, ends, star_ends, shorter}
use price_scout.Regex.Members.{In, flat_map}
use price_scout.Regex.Meaning.{onto}
use price_scout.Regex.Scan.{Found, first_end, exec_from, scan, match_all}
use price_scout.Validation.Price.{fraction, numeral}
use price_scout.Validation.Price.Groups.{
  cents, plain_units, spaced, grouped, numeral_cases, spaced_none, grouped_none,
}

point_no_digit :
    (d e n : ℕ) (x : Text) → star_ends n (ends digit) (x, cents d e) ≡ (x, cents d e) ∷ []
unfolding star_ends ends
point_no_digit d e zero x = refl
point_no_digit d e (suc n) x = refl

-- Greedy repetition takes all digits first.
star_digits :
    (n : ℕ) (before ds tail : Text)
    → length ds ≤ n
    → all is_digit ds ≡ true
    → ((m : ℕ) (x : Text) → star_ends m (ends digit) (x, tail) ≡ (x, tail) ∷ [])
    → (more : List Pos) × (star_ends n (ends digit) (before, ds ++ tail)
        ≡ (onto ds before, tail) ∷ more)
unfolding star_ends ends
star_digits n before [] tail h digits last = ([], last n before)
star_digits zero before (c ∷ ds) tail h digits last = absurd (omega arith)
star_digits (suc n) before (c ∷ ds) tail h digits last =
    let c_digit : is_digit c ≡ true = ground arith in
    let (more, e) = star_digits n (c ∷ before) ds tail (omega arith) (ground arith) last in
    let less : shorter (c ∷ before, ds ++ tail) (before, (c ∷ ds) ++ tail) ≡ true =
      lt→ltb _ _ (omega arith) in
    ((more ++ []) ++ (before, (c ∷ ds) ++ tail) ∷ [], rw (c_digit, less, e) refl)

module _ (ds : Text) (d e : ℕ) (digits : all is_digit ds ≡ true) (d_digit : is_digit d ≡ true)
    (e_digit : is_digit e ≡ true) where
  plus_digits :
      (c : ℕ) (before : Text)
      → is_digit c ≡ true
      → (more : List Pos) × (ends (plus digit) (before, c ∷ ds ++ cents d e)
          ≡ (onto ds (c ∷ before), cents d e) ∷ more)
  unfolding ends
  plus_digits c before c_digit =
      let (more, same) =
        star_digits (length (ds ++ cents d e)) (c ∷ before) ds (cents d e)
          (omega (arith, length-append {0} ds (cents d e))) digits (point_no_digit d e) in
      (more ++ [], rw (c_digit, same) refl)

  two_digits :
      (before : Text)
      → first_end (ends fraction (before, cents d e)) ≡ some (e ∷ d ∷ b'.' ∷ before, [])
  unfolding ends
  two_digits before = rw (d_digit, e_digit) refl

first_end-append : (l r : List Pos) (y : Pos) → first_end l ≡ some y → first_end (l ++ r) ≡ some y
first_end-append [] r y h = absurd cc
first_end-append (x ∷ l) r y h = h

take-length : (n : ℕ) (s : Text) → n ≡ length s → take n s ≡ s
take-length zero [] h = refl
take-length (suc n) [] h = refl
take-length zero (c ∷ s) h = absurd (omega arith)
take-length (suc n) (c ∷ s) h = ap (λ t. c ∷ t) (take-length n s (omega arith))

-- The engine's first end where the alternatives before the last one fail.
first_alternative :
    (r g p f : Regex) (x q y : Pos) (more : List Pos)
    → ends r x ≡ []
    → ends g x ≡ []
    → ends p x ≡ q ∷ more
    → first_end (ends f q) ≡ some y
    → first_end (ends (alt r (seq (alt g p) f)) x) ≡ some y
unfolding ends
first_alternative r g p f x q y more h k same first =
    rw (h, k, same) (first_end-append (ends f q) (flat_map (ends f) more) y first)

scan-none : (n : ℕ) (r : Regex) (x : Pos) → exec_from r x.0 x.1 ≡ none → scan n r x ≡ []
unfolding scan
scan-none zero r x h = refl
scan-none (suc n) r x h = rw (h, scan) refl

match_all_one :
    (r : Regex) (s : Text) (f : Found)
    → exec_from r [] s ≡ some f
    → exec_from r f.stop.0 f.stop.1 ≡ none
    → match_all r s ≡ f ∷ []
unfolding match_all scan
match_all_one r s f first end =
    rw (first, match_all, scan) (ap (λ l. f ∷ l) (scan-none (length s) r f.stop end))

module _ (c : ℕ) (ds : Text) (d e : ℕ) (c_digit : is_digit c ≡ true)
    (digits : all is_digit ds ≡ true) (d_digit : is_digit d ≡ true) (e_digit : is_digit e ≡ true)
    (plain : All (λ u. In u plain_units) (c ∷ ds ++ cents d e)) where
  abbrev last_pos : Pos
  last_pos = (e ∷ d ∷ b'.' ∷ onto ds (c ∷ []), [])

  -- The match of the whole text.
  abbrev pub printed : Found
  printed = record {
    start = ([], c ∷ ds ++ cents d e);
    text = c ∷ ds ++ cents d e;
    stop = last_pos;
  }

  all_digits : all is_digit (c ∷ ds) ≡ true
  all_digits = ground arith

  first_numeral : first_end (ends numeral ([], c ∷ ds ++ cents d e)) ≡ some last_pos
  first_numeral =
      let x : Pos = ([], c ∷ ds ++ cents d e) in
      let (more, same) = plus_digits ds d e digits d_digit e_digit c [] c_digit in
      subst (λ r. first_end (ends r x) ≡ some last_pos) (sym numeral_cases)
        (first_alternative spaced grouped (plus digit) fraction x (onto ds (c ∷ []), cents d e)
          last_pos more (spaced_none x plain)
          (grouped_none (c ∷ ds) d e all_digits d_digit e_digit []) same
          (two_digits ds d e digits d_digit e_digit (onto ds (c ∷ []))))

  abbrev with_text : Text → Option Found
  with_text t = some record { start = ([], c ∷ ds ++ cents d e); text = t; stop = last_pos }

  exec_numeral : exec_from numeral [] (c ∷ ds ++ cents d e) ≡ some printed
  unfolding exec_from
  exec_numeral =
      rw (first_numeral, exec_from)
        (ap with_text
          (take-length (length (c ∷ ds ++ cents d e) - 0) (c ∷ ds ++ cents d e) (omega arith)))

  exec_end : (before : Text) → exec_from numeral before [] ≡ none
  unfolding exec_from ends
  exec_end before = refl

  pub match_all-numeral : match_all numeral (c ∷ ds ++ cents d e) ≡ printed ∷ []
  match_all-numeral =
      match_all_one numeral (c ∷ ds ++ cents d e) printed exec_numeral (exec_end last_pos.0)
