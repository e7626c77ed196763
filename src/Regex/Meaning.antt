-- ===== src/Regex/Meaning.antt =====
-- What a regular expression matches, as a relation between positions, and that `ends` lists
-- exactly the ends of such matches.
use price_scout.Base.{
  ℕ, zero, suc, ◌≤◌, ◌<◌, ◌≡◌, refl, sym, ap, ◌⊎◌, inl, inr, ◌↔◌, Bool, true, false,
}
use price_scout.Base.{List, [], ◌∷◌, ◌++◌, arith, length, Bool-cases, if◌then◌else◌, lt→ltb}
use price_scout.Base.Text.{Text}
use price_scout.Regex.Members.{In, In-append, In-append_left, In-append_right, flat_map}
use price_scout.Regex.Members.{In-flat_map, In-flat_map_of}
use price_scout.Regex.{Regex, Pos, is_boundary, is_empty, unit_ends, stay, shorter}
use price_scout.Regex.{
  star_ends, no_match, ends, matches_from, test, unit, empty, seq, alt, star, boundary, at_start,
}
use price_scout.Regex.{at_end, not_ahead}

is_empty-eq : (s : Text) → is_empty s ≡ true → s ≡ []
is_empty-eq [] h = refl
is_empty-eq (c ∷ s) h = cc

-- Repetition.
pub data Star (R : Pos → Pos → Type 0) : Pos → Pos → Type 0 where
  done : {x : Pos} → Star R x x
  more : {x y z : Pos} → R x y → Star R y z → Star R x z

abbrev pub Matches : Regex → Pos → Pos → Type 0
Matches (unit p) x y = (c : ℕ) × (x.1 ≡ c ∷ y.1) × (y.0 ≡ c ∷ x.0) × (p c ≡ true)
Matches empty x y = x ≡ y
Matches (seq r s) x z = (y : Pos) × Matches r x y × Matches s y z
Matches (alt r s) x y = Matches r x y ⊎ Matches s x y
Matches (star r) x y = Star (Matches r) x y
Matches boundary x y = (x ≡ y) × (is_boundary x ≡ true)
Matches at_start x y = (x ≡ y) × (x.0 ≡ [])
Matches at_end x y = (x ≡ y) × (x.1 ≡ [])
Matches (not_ahead r) x y = (x ≡ y) × ((z : Pos) → Matches r x z → ⊥)

abbrev left : Pos → ℕ
left x = length x.1

-- A match is empty or consumes something.
abbrev Advances : Pos → Pos → Type 0
Advances x y = (x ≡ y) ⊎ (left y < left x)

Advances-trans : (x y z : Pos) → Advances x y → Advances y z → Advances x z
Advances-trans x y z (inl e) k = rw e k
Advances-trans x y z (inr h) (inl e) = inr (rw (← e) h)
Advances-trans x y z (inr h) (inr k) = inr (omega arith)

module _ (R : Pos → Pos → Type 0) (advances : (x y : Pos) → R x y → Advances x y) where
  Advances-Star : {x y : Pos} → Star R x y → Advances x y
  Advances-Star done = inl refl
  Advances-Star (more {x} {y} {z} h s) = Advances-trans x y z (advances x y h) (Advances-Star s)

Advances-Matches : (r : Regex) (x y : Pos) → Matches r x y → Advances x y
Advances-Matches (unit p) x y (c, e, f, h) = inr (omega (arith, ap (length {0}) e))
Advances-Matches empty x y e = inl e
Advances-Matches (seq r s) x z (y, h, k) =
    Advances-trans x y z (Advances-Matches r x y h) (Advances-Matches s y z k)
Advances-Matches (alt r s) x y (inl h) = Advances-Matches r x y h
Advances-Matches (alt r s) x y (inr h) = Advances-Matches s x y h
Advances-Matches (star r) x y h = Advances-Star (Matches r) (Advances-Matches r) h
Advances-Matches boundary x y h = inl h.0
Advances-Matches at_start x y h = inl h.0
Advances-Matches at_end x y h = inl h.0
Advances-Matches (not_ahead r) x y h = inl h.0

module _ (R : Pos → Pos → Type 0) (step : Pos → List Pos) where
  module _ (sound : (x y : Pos) → In y (step x) → R x y) where
    star_ends_sound : (n : ℕ) (x y : Pos) → In y (star_ends n step x) → Star R x y
    unfolding star_ends
    star_ends_sound zero x y (inl e) = rw e done
    star_ends_sound zero x y (inr h) = absurd h
    star_ends_sound (suc n) x y h =
        let next = λ (z : Pos). if shorter z x then star_ends n step z else [] in
        elim (In-append y (flat_map next (step x)) (x ∷ []) h) [
          | inl k ↦
              let (z, m, i) = In-flat_map next y (step x) k in
              elim (Bool-cases (shorter z x)) [
                | inl e ↦ more (sound x z m) (star_ends_sound n z y (ground arith))
                | inr e ↦ absurd (ground arith)
              ]
          | inr k ↦ elim k [ inl e ↦ rw e done | inr i ↦ absurd i ]
        ]

  module _ (complete : (x y : Pos) → R x y → In y (step x))
      (advances : (x y : Pos) → R x y → Advances x y) where
    star_ends_complete : {x y : Pos} → Star R x y → (n : ℕ) → left x ≤ n → In y (star_ends n step x)
    unfolding star_ends
    star_ends_complete (done {x}) zero h = inl refl
    star_ends_complete (done {x}) (suc n) h = In-append_right x _ (x ∷ []) (inl refl)
    star_ends_complete (more {x} {y} {z} p s) zero h = elim (advances x y p) [
      | inl e ↦ rw e (star_ends_complete s zero (rw (← e) h))
      | inr l ↦ absurd (omega arith)
    ]
    star_ends_complete (more {x} {y} {z} p s) (suc n) h = elim (advances x y p) [
      | inl e ↦ rw e (star_ends_complete s (suc n) (rw (← e) h))
      | inr l ↦
          let next = λ (w : Pos). if shorter w x then star_ends n step w else [] in
          let rest : In z (next y) = rw (lt→ltb _ _ l) (star_ends_complete s n (omega arith)) in
          In-append_left z (flat_map next (step x)) (x ∷ [])
            (In-flat_map_of next z (step x) y (complete x y p) rest)
    ]

In-stay : (b : Bool) (x y : Pos) → In y (stay b x) ↔ ((x ≡ y) × (b ≡ true))
In-stay b x y = (λ h. ground arith, λ h. ground arith)

no_match_iff : (xs : List Pos) → (no_match xs ≡ true) ↔ ((y : Pos) → In y xs → ⊥)
no_match_iff [] = (λ e y h. h, λ h. refl)
no_match_iff (x ∷ xs) = (λ e. cc, λ h. absurd (h x (inl refl)))

unit_ends_iff :
    (p : ℕ → Bool) (x y : Pos)
    → In y (unit_ends p x) ↔ ((c : ℕ) × (x.1 ≡ c ∷ y.1) × (y.0 ≡ c ∷ x.0) × (p c ≡ true))
unit_ends_iff p (before, []) y = (λ h. absurd h, λ h. cc (h.1))
unit_ends_iff p (before, c ∷ after) y =
    (λ h. (c, ground arith, ground arith, ground arith), λ h. let (d, e, f, k) = h in ground arith)

-- `ends` lists exactly the ends of the matches.
mutual
  unfolding ends

  pub ends_sound : (r : Regex) (x y : Pos) → In y (ends r x) → Matches r x y
  ends_sound (unit p) x y h = (unit_ends_iff p x y).0 h
  ends_sound empty x y h = elim h [ inl e ↦ sym e | inr i ↦ absurd i ]
  ends_sound (seq r s) x z h =
      let (y, h, k) = In-flat_map (ends s) z (ends r x) h in
      (y, ends_sound r x y h, ends_sound s y z k)
  ends_sound (alt r s) x y h = elim (In-append y (ends r x) (ends s x) h) [
    | inl k ↦ inl (ends_sound r x y k)
    | inr k ↦ inr (ends_sound s x y k)
  ]
  ends_sound (star r) x y h = star_ends_sound (Matches r) (ends r) (ends_sound r) (length x.1) x y h
  ends_sound boundary x y h = (In-stay (is_boundary x) x y).0 h
  ends_sound at_start x y h =
      let (e, b) = (In-stay (is_empty x.0) x y).0 h in (e, is_empty-eq x.0 b)
  ends_sound at_end x y h = let (e, b) = (In-stay (is_empty x.1) x y).0 h in (e, is_empty-eq x.1 b)
  ends_sound (not_ahead r) x y h =
      let (e, b) = (In-stay (no_match (ends r x)) x y).0 h in
      (e, λ z m. (no_match_iff (ends r x)).0 b z (ends_complete r x z m))

  ends_complete : (r : Regex) (x y : Pos) → Matches r x y → In y (ends r x)
  ends_complete (unit p) x y h = (unit_ends_iff p x y).1 h
  ends_complete empty x y h = inl (sym h)
  ends_complete (seq r s) x z (y, h, k) =
      In-flat_map_of (ends s) z (ends r x) y (ends_complete r x y h) (ends_complete s y z k)
  ends_complete (alt r s) x y (inl h) =
      In-append_left y (ends r x) (ends s x) (ends_complete r x y h)
  ends_complete (alt r s) x y (inr h) =
      In-append_right y (ends r x) (ends s x) (ends_complete s x y h)
  ends_complete (star r) x y h =
      star_ends_complete (Matches r) (ends r) (ends_complete r) (Advances-Matches r) h (length x.1)
        (omega arith)
  ends_complete boundary x y h = (In-stay (is_boundary x) x y).1 h
  ends_complete at_start x y (e, b) = (In-stay (is_empty x.0) x y).1 (e, rw b refl)
  ends_complete at_end x y (e, b) = (In-stay (is_empty x.1) x y).1 (e, rw b refl)
  ends_complete (not_ahead r) x y (e, k) =
      (In-stay (no_match (ends r x)) x y).1
        (e, (no_match_iff (ends r x)).1 (λ z m. k z (ends_sound r x z m)))

-- The position behind `pre`, read from the position behind `before`.
abbrev pub onto : Text → Text → Text
onto [] before = before
onto (c ∷ pre) before = onto pre (c ∷ before)

abbrev OccursFrom : Regex → Text → Text → Type 0
OccursFrom r before s =
    (pre : Text) × (after : Text) × (y : Pos) × (s ≡ pre ++ after)
    × Matches r (onto pre before, after) y

-- A match of `r` somewhere in the text.
abbrev pub Occurs : Regex → Text → Type 0
Occurs r s = OccursFrom r [] s

some_end : (xs : List Pos) → no_match xs ≡ false → (y : Pos) × In y xs
some_end [] h = cc
some_end (x ∷ xs) h = (x, inl refl)

matches_from_sound :
    (r : Regex) (before s : Text) → matches_from r before s ≡ true → OccursFrom r before s
unfolding matches_from
matches_from_sound r before [] h =
    let (y, i) = some_end (ends r (before, [])) (ground arith) in
    ([], [], y, refl, ends_sound r _ y i)
matches_from_sound r before (c ∷ s) h = elim (Bool-cases (no_match (ends r (before, c ∷ s)))) [
  | inl e ↦
      let (pre, after, y, split, m) = matches_from_sound r (c ∷ before) s (ground arith) in
      (c ∷ pre, after, y, ap (λ t. c ∷ t) split, m)
  | inr e ↦
      let (y, i) = some_end (ends r (before, c ∷ s)) e in ([], c ∷ s, y, refl, ends_sound r _ y i)
]

no_match_of_Matches : (r : Regex) (x y : Pos) → Matches r x y → no_match (ends r x) ≡ false
no_match_of_Matches r x y m = elim (Bool-cases (no_match (ends r x))) [
  | inl e ↦ absurd ((no_match_iff (ends r x)).0 e y (ends_complete r x y m))
  | inr e ↦ e
]

matches_from_complete :
    (r : Regex) (before pre after : Text) (y : Pos)
    → Matches r (onto pre before, after) y
    → matches_from r before (pre ++ after) ≡ true
unfolding matches_from
matches_from_complete r before [] [] y m = rw (no_match_of_Matches r _ y m)
matches_from_complete r before [] (c ∷ s) y m = rw (no_match_of_Matches r _ y m)
matches_from_complete r before (c ∷ pre) after y m =
    ground (arith, matches_from_complete r (c ∷ before) pre after y m)

-- `test` finds exactly the texts in which the expression matches somewhere.
pub test_iff : (r : Regex) (s : Text) → (test r s ≡ true) ↔ Occurs r s
unfolding test
test_iff r s = (
  matches_from_sound r [] s,
  λ (pre, after, y, split, m). rw split (matches_from_complete r [] pre after y m),
)
