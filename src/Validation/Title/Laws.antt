-- ===== src/Validation/Title/Laws.antt =====
-- A title is similar to itself, and a product's similarity does not depend on the order of two
-- titles with the same tokens.
use price_scout.Base.{ℕ, zero, suc, ◌≤◌, ◌≡◌, refl, Bool, true, false, not, List, [], ◌∷◌, ◌++◌}
use price_scout.Base.{inl, inr, arith, keep, length, Bool-cases, All}
use price_scout.Base.Text.{Text, text_eq, text_eq_refl, eq_of_text_eq}
use price_scout.Base.Unicode.{Unicode}
use price_scout.Validation.Title.{to_set, has, tokens, overlap, dissimilar, is_nil}

has-self_cons : (t : Text) (ts : List Text) → has (t ∷ ts) t ≡ true
has-self_cons t ts = ground (arith, text_eq_refl t)

abbrev Covers : List Text → List Text → Type 0
Covers big = All (λ t. has big t ≡ true)

Covers-cons : (t : Text) (big small : List Text) → Covers big small → Covers (t ∷ big) small
Covers-cons t big [] h = tt
Covers-cons t big (s ∷ small) (p, h) = (ground arith, Covers-cons t big small h)

Covers-refl : (ts : List Text) → Covers ts ts
Covers-refl [] = tt
Covers-refl (t ∷ ts) = (has-self_cons t ts, Covers-cons t ts ts (Covers-refl ts))

keep_covered : (big small : List Text) → Covers big small → keep (has big) small ≡ small
keep_covered big [] h = refl
keep_covered big (s ∷ small) (p, h) = rw (p, keep_covered big small h)

module _ (p q : Text → Bool) where
  keep-keep_swap : (ts : List Text) → keep p (keep q ts) ≡ keep q (keep p ts)
  keep-keep_swap [] = refl
  keep-keep_swap (t ∷ ts) = ground (arith, keep-keep_swap ts)

length-keep_le : (p : Text → Bool) (ts : List Text) → length (keep p ts) ≤ length ts
length-keep_le p [] = omega arith
length-keep_le p (t ∷ ts) = ground (arith, length-keep_le p ts)

keep-append : (p : Text → Bool) (xs ys : List Text) → keep p (xs ++ ys) ≡ keep p xs ++ keep p ys
keep-append p [] ys = refl
keep-append p (t ∷ xs) ys = ground (arith, keep-append p xs ys)

abbrev other_than : Text → Text → Bool
other_than t s = not (text_eq s t)

-- What `p` drops anyway need not be dropped before.
keep-other_than :
    (p : Text → Bool) (t : Text) (ts : List Text)
    → p t ≡ false
    → keep p (keep (other_than t) ts) ≡ keep p ts
keep-other_than p t [] h = refl
keep-other_than p t (s ∷ ts) h = elim (Bool-cases (text_eq s t)) [
  | inl e ↦
      let gone : p s ≡ false = rw (eq_of_text_eq s t e) h in rw (e, gone) (keep-other_than p t ts h)
  | inr e ↦ rw e (ground (arith, keep-other_than p t ts h))
]

keep-to_set : (p : Text → Bool) (ts : List Text) → keep p (to_set ts) ≡ to_set (keep p ts)
unfolding to_set
keep-to_set p [] = refl
keep-to_set p (t ∷ ts) = elim (Bool-cases (p t)) [
  | inl e ↦ rw (e, keep-keep_swap p (other_than t) (to_set ts), keep-to_set p ts)
  | inr e ↦ rw (e, keep-other_than p t (to_set ts) e, keep-to_set p ts)
]

has-keep :
    (t b : Text) (xs : List Text)
    → text_eq b t ≡ false
    → has xs b ≡ true
    → has (keep (other_than t) xs) b ≡ true
has-keep t b [] e h = h
has-keep t b (x ∷ xs) e h = elim (Bool-cases (text_eq b x)) [
  | inl same ↦
      let kept : text_eq x t ≡ false = rw (← eq_of_text_eq b x same) e in rw kept (rw same refl)
  | inr other ↦ ground (arith, has-keep t b xs e)
]

Covers-keep :
    (t : Text) (xs ys : List Text)
    → Covers (t ∷ xs) ys
    → Covers (keep (other_than t) xs) (keep (other_than t) ys)
Covers-keep t xs [] h = tt
Covers-keep t xs (b ∷ ys) (p, h) = elim (Bool-cases (text_eq b t)) [
  | inl e ↦ rw e (Covers-keep t xs ys h)
  | inr e ↦ rw e (has-keep t b xs e (ground arith), Covers-keep t xs ys h)
]

-- Elements that are there already add nothing.
length-to_set_covered :
    (n : ℕ) (xs ys : List Text)
    → length xs ≤ n
    → Covers xs ys
    → length (to_set (xs ++ ys)) ≤ length xs
unfolding to_set
length-to_set_covered n [] [] l h = omega arith
length-to_set_covered n [] (b ∷ ys) l h = cc (h.0)
length-to_set_covered zero (a ∷ xs) ys l h = absurd (omega arith)
length-to_set_covered (suc n) (a ∷ xs) ys l h =
    rw (keep-to_set (other_than a) (xs ++ ys), keep-append (other_than a) xs ys)
      (omega (
        arith,
        length-keep_le (other_than a) xs,
        length-to_set_covered n (keep (other_than a) xs) (keep (other_than a) ys)
            (omega (arith, length-keep_le (other_than a) xs)) (Covers-keep a xs ys h),
      ))

-- A title with a token is similar to itself.
dissimilar_self :
    (u : Unicode) (title : Text)
    → is_nil (tokens u title) ≡ false
    → dissimilar u title title ≡ false
unfolding dissimilar overlap
dissimilar_self u title some_token =
    let a = tokens u title in
    let common : keep (has a) a ≡ a = keep_covered a a (Covers-refl a) in
    let union = length-to_set_covered (length a) a a (omega arith) (Covers-refl a) in
    rw (some_token, common) (ground arith)
