-- ===== src/Validation/Price/Groups.antt =====
-- The parts of the expression for numerals in `parsePrice`, and that those for groups of digits find
-- nothing in digits with a point and two more.
use price_scout.Base.{ℕ, ◌≤◌, ◌≡◌, refl, ap, ◌∙◌, true, false, arith}
use price_scout.Base.{[], ◌∷◌, ◌++◌, All, all, length, length-append, if◌then◌else◌, ◌==◌}
use price_scout.Base.Text.{Text, codes, is_digit}
use mathlib.Core.Path.{subst}
use price_scout.Regex.{Regex, Pos, seq, alt, digit, plus, up_to, times, exactly, one_of, ends}
use price_scout.Regex.Members.{In}
use price_scout.Regex.Avoids.{all_none, Matches-IsBehind, All-suffix, ends_none}
use price_scout.Validation.Price.{fraction, numeral}

-- The units of a plain decimal numeral.
abbrev pub plain_units : Text
plain_units = codes "0123456789."

abbrev pub cents : ℕ → ℕ → Text
cents d e = b'.' ∷ d ∷ e ∷ []

head_group : Regex
head_group = seq digit (up_to 2 digit)

spaced_group : Regex
spaced_group = seq (exactly (codes " ")) (times 3 digit)

pub spaced : Regex
unfolding head_group spaced_group
spaced = seq head_group (seq (plus spaced_group) fraction)

pub grouped : Regex
unfolding head_group
grouped = seq head_group (plus (seq (one_of (codes ",.")) (times 3 digit)))

pub numeral_cases : numeral ≡ alt spaced (seq (alt grouped (plus digit)) fraction)
unfolding spaced grouped head_group spaced_group
numeral_cases = refl

-- A numeral with spaces needs a space.
pub spaced_none : (x : Pos) → All (λ c. In c plain_units) x.1 → ends spaced x ≡ []
unfolding spaced head_group spaced_group
spaced_none x a =
    ends_none spaced x λ z (y, group, (w, (w1, (w2, (w3, (c, e, _, is_space), _), _), _), _)).
      let (m, split) = Matches-IsBehind head_group x y group in
      let rest =
        All-suffix (λ c. In c plain_units) m y.1
          (subst (λ t. All (λ c. In c plain_units) t) split a) in
      let at_c = (subst (λ t. All (λ c. In c plain_units) t) e rest).0 in
      let other : c == 32 ≡ false = all_none (λ d. d == 32) plain_units c refl at_c in cc

-- Behind the first unit that is no digit there are two units.
behind_point :
    (ds : Text) (d e : ℕ) (m : Text) (c : ℕ) (r : Text)
    → all is_digit ds ≡ true
    → is_digit d ≡ true
    → is_digit e ≡ true
    → is_digit c ≡ false
    → ds ++ cents d e ≡ m ++ c ∷ r
    → length r ≤ 2
behind_point [] d e [] c r h hd he hc same = omega (arith, ap (length {0}) same)
behind_point [] d e (x ∷ m) c r h hd he hc same =
    omega (arith, ap (length {0}) same, length-append {0} m (c ∷ r))
behind_point (x ∷ ds) d e [] c r h hd he hc same =
    let first : x ≡ c = cc in
    let digit_c : is_digit x ≡ true = ground arith in
    absurd (let no : is_digit x ≡ false = rw first hc in cc)
behind_point (x ∷ ds) d e (y ∷ m) c r h hd he hc same =
    behind_point ds d e m c r (ground arith) hd he hc (cc)

separator_no_digit :
    (c : ℕ)
    → (if c == b',' then true else if c == b'.' then true else false) ≡ true
    → is_digit c ≡ false
separator_no_digit c h = ground arith

three_behind : (s t u v : Text) (x y z : ℕ) → s ≡ x ∷ t → t ≡ y ∷ u → u ≡ z ∷ v → 3 ≤ length s
three_behind s t u v x y z f g h =
    omega (arith, ap (length {0}) f, ap (length {0}) g, ap (length {0}) h)

module _ (ds : Text) (d e : ℕ) (digits : all is_digit ds ≡ true) (d_digit : is_digit d ≡ true)
    (e_digit : is_digit e ≡ true) where
  -- A numeral with groups needs three digits behind its point.
  pub grouped_none : (before : Text) → ends grouped (before, ds ++ cents d e) ≡ []
  unfolding grouped head_group
  grouped_none before =
      ends_none grouped (before, ds ++ cents d e)
        λ z
            (
              y,
              group,
              (
                w1,
                (
                  w2,
                  (c, f, _, separator),
                  (w3, (c3, g, _, _), (w4, (c4, h, _, _), (w5, (c5, k, _, _), _))),
                ),
                _,
              ),
            ).
          let (m, split) = Matches-IsBehind head_group (before, ds ++ cents d e) y group in
          let few =
            behind_point ds d e m c w2.1 digits d_digit e_digit (separator_no_digit c separator)
              (split ∙ ap (◌++◌ m) f) in
          let many = three_behind w2.1 w3.1 w4.1 w5.1 c3 c4 c5 g h k in absurd (omega arith)
