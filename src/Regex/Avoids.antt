-- ===== src/Regex/Avoids.antt =====
-- Expressions that find nothing in texts of certain units, by a test of the expression.
use price_scout.Base.{
  ℕ, ◌≡◌, refl, sym, ap, ◌∙◌, inl, inr, Bool, true, false, not, ◌&&◌, ◌||◌, Bool-cases, none,
  append_assoc,
}
use price_scout.Base.{[], ◌∷◌, ◌++◌, All, all, arith}
use price_scout.Base.Text.{Text}
use mathlib.Core.Path.{subst}
use price_scout.Regex.{
  Regex, Pos, unit, empty, seq, alt, star, boundary, at_start, at_end, not_ahead, ends, test,
}
use price_scout.Regex.Members.{In}
use price_scout.Regex.Meaning.{Matches, Star, done, more, ends_sound, onto, test_iff}
use price_scout.Regex.Scan.{exec_from, scan, match_all}

-- `y` is behind some text that `x` is before.
abbrev IsBehind : Pos → Pos → Type 0
IsBehind x y = (m : Text) × (x.1 ≡ m ++ y.1)

IsBehind-trans : (x y z : Pos) → IsBehind x y → IsBehind y z → IsBehind x z
IsBehind-trans x y z (m, e) (n, f) = (m ++ n, e ∙ ap (◌++◌ m) f ∙ sym (append_assoc m n z.1))

IsBehind-same : (x y : Pos) → x ≡ y → IsBehind x y
IsBehind-same x y e = ([], ap (λ (q : Pos). q.1) e)

module _ (R : Pos → Pos → Type 0) (behind : (x y : Pos) → R x y → IsBehind x y) where
  Star-IsBehind : {x y : Pos} → Star R x y → IsBehind x y
  Star-IsBehind done = ([], refl)
  Star-IsBehind (more {x} {y} {z} h k) = IsBehind-trans x y z (behind x y h) (Star-IsBehind k)

-- What is behind a match is the end of what was before it.
pub Matches-IsBehind : (r : Regex) (x y : Pos) → Matches r x y → (m : Text) × (x.1 ≡ m ++ y.1)
Matches-IsBehind (unit p) x y (c, e, _, _) = (c ∷ [], e)
Matches-IsBehind empty x y e = IsBehind-same x y e
Matches-IsBehind (seq r s) x z (y, h, k) =
    IsBehind-trans x y z (Matches-IsBehind r x y h) (Matches-IsBehind s y z k)
Matches-IsBehind (alt r s) x y (inl h) = Matches-IsBehind r x y h
Matches-IsBehind (alt r s) x y (inr h) = Matches-IsBehind s x y h
Matches-IsBehind (star r) x y h = Star-IsBehind (Matches r) (Matches-IsBehind r) h
Matches-IsBehind boundary x y h = IsBehind-same x y h.0
Matches-IsBehind at_start x y h = IsBehind-same x y h.0
Matches-IsBehind at_end x y h = IsBehind-same x y h.0
Matches-IsBehind (not_ahead r) x y h = IsBehind-same x y h.0

pub All-suffix : (P : ℕ → Type 0) (m s : Text) → All P (m ++ s) → All P s
All-suffix P [] s h = h
All-suffix P (c ∷ m) s (p, h) = All-suffix P m s h

pub ends_none : (r : Regex) (x : Pos) → ((y : Pos) → ¬ Matches r x y) → ends r x ≡ []
ends_none r x never =
    elim (ends r x) as (λ l. ends r x ≡ l → ends r x ≡ []) [
      | [] ↦ λ e. e
      | y ∷ l ↦ λ e. absurd (never y (ends_sound r x y (rw e (inl refl))))
    ]
      refl

-- Expressions that match without consuming anything.
abbrev is_still : Regex → Bool
is_still boundary = true
is_still at_start = true
is_still at_end = true
is_still (not_ahead r) = true
is_still _ = false

-- The units of `l` begin no match.
abbrev pub avoids : Text → Regex → Bool
avoids l (unit p) = all (λ c. not (p c)) l
avoids l (seq r s) = avoids l r || (is_still r && avoids l s)
avoids l (alt r s) = avoids l r && avoids l s
avoids l _ = false

is_still-same : (r : Regex) (x y : Pos) → is_still r ≡ true → Matches r x y → x ≡ y
is_still-same boundary x y e h = h.0
is_still-same at_start x y e h = h.0
is_still-same at_end x y e h = h.0
is_still-same (not_ahead r) x y e h = h.0
is_still-same (unit p) x y e h = absurd cc
is_still-same empty x y e h = absurd cc
is_still-same (seq r s) x y e h = absurd cc
is_still-same (alt r s) x y e h = absurd cc
is_still-same (star r) x y e h = absurd cc

pub all_none :
    (p : ℕ → Bool) (l : Text) (c : ℕ) → all (λ d. not (p d)) l ≡ true → In c l → p c ≡ false
all_none p [] c h i = absurd i
all_none p (d ∷ l) c h (inl e) = rw e (ground arith)
all_none p (d ∷ l) c h (inr i) = all_none p l c (ground arith) i

-- The text goes on with a unit that is not of `l`.
abbrev GoesOn : Text → Text → Type 0
GoesOn l s = (c : ℕ) × (rest : Text) × (s ≡ c ∷ rest) × (In c l → ⊥)

avoids_sound : (l : Text) (r : Regex) (x y : Pos) → avoids l r ≡ true → Matches r x y → GoesOn l x.1
avoids_sound l (unit p) x y h (c, e, _, k) =
    (c, y.1, e, λ i. let none_of : p c ≡ false = all_none p l c h i in cc)
avoids_sound l (seq r s) x z h (y, m, n) = elim (Bool-cases (avoids l r)) [
  | inl e ↦ avoids_sound l r x y e m
  | inr e ↦
      let still : is_still r ≡ true = ground arith in
      let same : x ≡ y = is_still-same r x y still m in
      let (c, rest, f, out) = avoids_sound l s y z (ground arith) n in
      (c, rest, ap (λ (q : Pos). q.1) same ∙ f, out)
]
avoids_sound l (alt r s) x y h (inl m) = avoids_sound l r x y (ground arith) m
avoids_sound l (alt r s) x y h (inr m) = avoids_sound l s x y (ground arith) m
avoids_sound l empty x y h m = absurd cc
avoids_sound l (star r) x y h m = absurd cc
avoids_sound l boundary x y h m = absurd cc
avoids_sound l at_start x y h m = absurd cc
avoids_sound l at_end x y h m = absurd cc
avoids_sound l (not_ahead r) x y h m = absurd cc

module _ (l : Text) (r : Regex) (h : avoids l r ≡ true) where
  never_begins : (x y : Pos) → All (λ c. In c l) x.1 → ¬ Matches r x y
  never_begins x y a m =
      let (c, rest, e, out) = avoids_sound l r x y h m in
      out (subst (λ t. All (λ c. In c l) t) e a).0

  -- No match begins in a text of these units.
  pub test-avoids : (s : Text) → All (λ c. In c l) s → test r s ≡ false
  test-avoids s a = elim (Bool-cases (test r s)) [
    | inr e ↦ e
    | inl e ↦
        let (pre, after, y, split, m) = (test_iff r s).0 e in
        absurd (
          never_begins (onto pre [], after) y
            (All-suffix (λ c. In c l) pre after (subst (λ t. All (λ c. In c l) t) split a)) m)
  ]

  exec_from-avoids : (before s : Text) → All (λ c. In c l) s → exec_from r before s ≡ none
  unfolding exec_from
  exec_from-avoids before [] a =
      rw (ends_none r (before, []) (λ y. never_begins (before, []) y tt), exec_from) refl
  exec_from-avoids before (c ∷ s) a =
      rw
        (
          ends_none r (before, c ∷ s) (λ y. never_begins (before, c ∷ s) y a),
          exec_from-avoids (c ∷ before) s a.1,
          exec_from,
        )
        refl

  pub match_all-avoids : (s : Text) → All (λ c. In c l) s → match_all r s ≡ []
  unfolding match_all scan
  match_all-avoids s a = rw (exec_from-avoids [] s a, match_all, scan) refl
