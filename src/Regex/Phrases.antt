-- ===== src/Regex/Phrases.antt =====
-- Expressions under the flag `i` that match a finite list of phrases, and searching for such
-- phrases as whole words.
use price_scout.Base.{ℕ, ◌≡◌, refl, sym, ap, ◌∙◌, inl, inr, ◌↔◌, true, map, append_assoc}
use price_scout.Base.{List, [], ◌∷◌, ◌++◌, arith, ◌==◌, ==_iff}
use price_scout.Base.Text.{Text, to_lower}
use price_scout.Regex.{
  Regex, Pos, is_boundary, unit, empty, seq, alt, boundary, folded, optional, test,
}
use price_scout.Regex.Members.{In, flat_map, In-flat_map, In-flat_map_of, In-append}
use price_scout.Regex.Members.{In-append_left, In-append_right}
use price_scout.Regex.Meaning.{Matches, Occurs, onto, test_iff}

abbrev pub lowered : Text → Text
lowered = map to_lower

-- The text between two positions is one of the phrases, up to case.
abbrev pub Spelled : List Text → Pos → Pos → Type 0
Spelled ws x y = (m : Text) × (x.1 ≡ m ++ y.1) × (y.0 ≡ onto m x.0) × In (lowered m) ws

pub record Spells (r : Regex) (ws : List Text) : Type 0 where
  pub at : (x y : Pos) → Matches r x y ↔ Spelled ws x y

abbrev pub products : List Text → List Text → List Text
products us vs = flat_map (λ u. map (λ v. u ++ v) vs) us

onto-append : (m n b : Text) → onto (m ++ n) b ≡ onto n (onto m b)
onto-append [] n b = refl
onto-append (c ∷ m) n b = onto-append m n (c ∷ b)

lowered-append : (m n : Text) → lowered (m ++ n) ≡ lowered m ++ lowered n
lowered-append [] n = refl
lowered-append (c ∷ m) n = ap (λ t. to_lower c ∷ t) (lowered-append m n)

In-map_append : (u v : Text) (vs : List Text) → In v vs → In (u ++ v) (map (λ w. u ++ w) vs)
In-map_append u v [] h = absurd h
In-map_append u v (w ∷ vs) (inl e) = inl (ap (λ t. u ++ t) e)
In-map_append u v (w ∷ vs) (inr h) = inr (In-map_append u v vs h)

In-products : (u v : Text) (us vs : List Text) → In u us → In v vs → In (u ++ v) (products us vs)
In-products u v us vs h k =
    In-flat_map_of (λ w. map (λ z. w ++ z) vs) (u ++ v) us u h (In-map_append u v vs k)

In-map_append_inv :
    (u t : Text) (vs : List Text)
    → In t (map (λ w. u ++ w) vs)
    → (v : Text) × In v vs × (t ≡ u ++ v)
In-map_append_inv u t [] h = absurd h
In-map_append_inv u t (w ∷ vs) (inl e) = (w, inl refl, e)
In-map_append_inv u t (w ∷ vs) (inr h) = let (v, i, e) = In-map_append_inv u t vs h in (v, inr i, e)

lowered-split :
    (u v m : Text)
    → lowered m ≡ u ++ v
    → (m1 : Text) × (m2 : Text) × (m ≡ m1 ++ m2) × (lowered m1 ≡ u) × (lowered m2 ≡ v)
lowered-split [] v m e = ([], m, refl, refl, e)
lowered-split (c ∷ u) v [] e = cc
lowered-split (c ∷ u) v (d ∷ m) e =
    let (m1, m2, cut, a, b) = lowered-split u v m (ground arith) in
    (d ∷ m1, m2, ap (λ t. d ∷ t) cut, ground arith, b)

one_unit :
    (c : ℕ) (x y : Pos)
    → Spelled ((to_lower c ∷ []) ∷ []) x y
    → Matches (unit (λ d. to_lower d == to_lower c)) x y
one_unit c x y ([], e, f, inl h) = cc
one_unit c x y (d ∷ [], e, f, inl h) = (d, e, f, (==_iff _ _).1 (ground arith))
one_unit c x y (d ∷ d' ∷ m, e, f, inl h) = cc
one_unit c x y (m, e, f, inr h) = absurd h

empty_of_Spelled : (x y : Pos) → Spelled ([] ∷ []) x y → x ≡ y
empty_of_Spelled x y ([], e, f, h) = λ i. (sym f i, e i)
empty_of_Spelled x y (c ∷ m, e, f, inl h) = cc
empty_of_Spelled x y (c ∷ m, e, f, inr h) = absurd h

pub Spells-empty : Spells empty ([] ∷ [])
Spells-empty = record {
  at = λ x y. (
    λ e. ([], ap (λ (p : Pos). p.1) e, sym (ap (λ (p : Pos). p.0) e), inl refl),
    empty_of_Spelled x y,
  );
}

module _ {r s : Regex} {us vs : List Text} (p : Spells r us) (q : Spells s vs) where
  alt_to : (x y : Pos) → Matches (alt r s) x y → Spelled (us ++ vs) x y
  alt_to x y (inl h) =
      let (m, e, f, i) = (p.at x y).0 h in (m, e, f, In-append_left (lowered m) us vs i)
  alt_to x y (inr h) =
      let (m, e, f, i) = (q.at x y).0 h in (m, e, f, In-append_right (lowered m) us vs i)

  alt_from : (x y : Pos) → Spelled (us ++ vs) x y → Matches (alt r s) x y
  alt_from x y (m, e, f, h) = elim (In-append (lowered m) us vs h) [
    | inl i ↦ inl ((p.at x y).1 (m, e, f, i))
    | inr i ↦ inr ((q.at x y).1 (m, e, f, i))
  ]

  pub Spells-alt : Spells (alt r s) (us ++ vs)
  Spells-alt = record { at = λ x y. (alt_to x y, alt_from x y) }

  seq_to : (x y : Pos) → Matches (seq r s) x y → Spelled (products us vs) x y
  seq_to x z (y, h, k) =
      let (m, e, f, i) = (p.at x y).0 h in
      let (n, e', f', i') = (q.at y z).0 k in
      (
        m ++ n,
        e ∙ ap (λ t. m ++ t) e' ∙ sym (append_assoc m n z.1),
        f' ∙ ap (onto n) f ∙ sym (onto-append m n x.0),
        rw (lowered-append m n) (In-products (lowered m) (lowered n) us vs i i'),
      )

  seq_from : (x y : Pos) → Spelled (products us vs) x y → Matches (seq r s) x y
  seq_from x z (m, e, f, h) =
      let (u, i, j) = In-flat_map (λ w. map (λ z. w ++ z) vs) (lowered m) us h in
      let (v, k, same) = In-map_append_inv u (lowered m) vs j in
      let (m1, m2, cut, a, b) = lowered-split u v m same in
      let y : Pos = (onto m1 x.0, m2 ++ z.1) in
      (
        y,
        (p.at x y).1 (m1, e ∙ ap (λ t. t ++ z.1) cut ∙ append_assoc m1 m2 z.1, refl, rw a i),
        (q.at y z).1 (m2, refl, f ∙ ap (λ t. onto t x.0) cut ∙ onto-append m1 m2 x.0, rw b k),
      )

  pub Spells-seq : Spells (seq r s) (products us vs)
  Spells-seq = record { at = λ x y. (seq_to x y, seq_from x y) }

Spells-unit : (c : ℕ) → Spells (unit (λ d. to_lower d == to_lower c)) ((to_lower c ∷ []) ∷ [])
Spells-unit c = record {
  at = λ x y.
      (λ (d, e, f, h). (d ∷ [], e, f, inl (ap (λ n. n ∷ []) ((==_iff _ _).0 h))), one_unit c x y);
}

pub Spells-folded : (w : Text) → Spells (folded w) (lowered w ∷ [])
Spells-folded [] = Spells-empty
Spells-folded (c ∷ w) = Spells-seq (Spells-unit c) (Spells-folded w)

pub Spells-optional :
    {r : Regex} {ws : List Text} → Spells r ws → Spells (optional r) (ws ++ [] ∷ [])
Spells-optional p = Spells-alt p Spells-empty

-- One of the phrases stands in the text, up to case.
abbrev pub Contains : List Text → Text → Type 0
Contains ws s =
    (pre : Text) × (m : Text) × (post : Text) × (s ≡ pre ++ (m ++ post)) × In (lowered m) ws

-- One of the phrases stands in the text as whole words, up to case.
abbrev pub Mentions : List Text → Text → Type 0
Mentions ws s =
    (pre : Text) × (m : Text) × (post : Text) × (s ≡ pre ++ (m ++ post))
    × In (lowered m) ws
    × (is_boundary (onto pre [], m ++ post) ≡ true)
    × (is_boundary (onto m (onto pre []), post) ≡ true)

abbrev pub whole_words : Regex → Regex
whole_words r = seq boundary (seq r boundary)

module _ {r : Regex} {ws : List Text} (p : Spells r ws) (s : Text) where
  Contains-to : Occurs r s → Contains ws s
  Contains-to (pre, after, y, split, h) =
      let (m, e, f, i) = (p.at _ y).0 h in (pre, m, y.1, split ∙ ap (λ t. pre ++ t) e, i)

  Contains-from : Contains ws s → Occurs r s
  Contains-from (pre, m, post, split, i) =
      (pre, m ++ post, (onto m (onto pre []), post), split, (p.at _ _).1 (m, refl, refl, i))

  pub Contains-iff : (test r s ≡ true) ↔ Contains ws s
  Contains-iff = (λ h. Contains-to ((test_iff r s).0 h), λ h. (test_iff r s).1 (Contains-from h))

  words_to : Occurs (whole_words r) s → Mentions ws s
  words_to (pre, after, y, split, (x1, (e1, b1), (x2, h, (e2, b2)))) =
      let (m, e, f, i) = (p.at x1 x2).0 h in
      let same : after ≡ m ++ x2.1 = ap (λ (q : Pos). q.1) e1 ∙ e in
      let back : x2.0 ≡ onto m (onto pre []) = f ∙ ap (λ (q : Pos). onto m q.0) (sym e1) in
      let at_stop : x2 ≡ (onto m (onto pre []), x2.1) = (λ j. (back j, x2.1)) in
      let at_start : (onto pre [], after) ≡ (onto pre [], m ++ x2.1) =
        (λ j. (onto pre [], same j)) in
      (
        pre,
        m,
        x2.1,
        split ∙ ap (λ t. pre ++ t) same,
        i,
        ap is_boundary (sym at_start) ∙ b1,
        ap is_boundary (sym at_stop) ∙ b2,
      )

  words_from : Mentions ws s → Occurs (whole_words r) s
  words_from (pre, m, post, split, i, b1, b2) =
      let x : Pos = (onto pre [], m ++ post) in
      let y : Pos = (onto m (onto pre []), post) in
      (pre, m ++ post, y, split, (x, (refl, b1), (y, (p.at x y).1 (m, refl, refl, i), (refl, b2))))

  pub whole_words_iff : (test (whole_words r) s ≡ true) ↔ Mentions ws s
  whole_words_iff = (
    λ h. words_to ((test_iff (whole_words r) s).0 h),
    λ h. (test_iff (whole_words r) s).1 (words_from h),
  )
