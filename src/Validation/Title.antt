-- ===== src/Validation/Title.antt =====
-- `normalize`, `fingerprint` and `titleSimilarity` of worker/src/validation.ts. The similarity is
-- a fraction of two small sizes, kept exact.
pub mod Laws
use price_scout.Base.{ℕ, ◌+◌, ◌-◌, ◌*◌, Bool, true, false, not, ◌||◌, Option, none, some, List}
use price_scout.Base.{[], ◌∷◌, ◌++◌, any, keep, length, ltb, ◌==◌, if◌then◌else◌}
use price_scout.Base.Text.{Text, text_eq, truthy, trim, split, is_lower, is_digit}
use price_scout.Base.Unicode.{Unicode}
use price_scout.Outside.{Platform}

abbrev is_token_unit : ℕ → Bool
is_token_unit c = is_lower c || is_digit c

-- `text.replace(/[^a-z0-9]+/g, " ")`: `open_run` tells that a space already stands for the run.
unfoldable pub collapse : Bool → Text → Text
collapse open_run [] = []
collapse open_run (c ∷ s) =
    let rest = collapse (not (is_token_unit c)) s in
    if is_token_unit c then c ∷ rest else if open_run then rest else 32 ∷ rest

unfoldable pub normalize : Unicode → Text → Text
normalize u input = trim (collapse false (u.nfkc (u.lower input)))

abbrev pub or_empty : Option Text → Text
or_empty none = []
or_empty (some t) = t

unfoldable pub fingerprint : Platform → Text → Option Text → Text
fingerprint p title sku =
    p.sha256 (p.utf8 (normalize p.unicode title ++ (0 ∷ normalize p.unicode (or_empty sku))))

-- `new Set(texts)`, in insertion order
unfoldable pub to_set : List Text → List Text
to_set [] = []
to_set (t ∷ ts) = t ∷ keep (λ s. not (text_eq s t)) (to_set ts)

abbrev pub has : List Text → Text → Bool
has set t = any (text_eq t) set

unfoldable pub tokens : Unicode → Text → List Text
unfolding to_set
tokens u title = to_set (keep truthy (split 32 (normalize u title)))

-- The sizes of the intersection and of the union.
unfoldable pub overlap : List Text → List Text → ℕ × ℕ
overlap a b = let common = length (keep (has b) a) in (common, length (to_set (a ++ b)))

abbrev pub is_nil : List Text → Bool
is_nil [] = true
is_nil (_ ∷ _) = false

-- `titleSimilarity(left, right) < 0.8`: a similarity of 0 where either has no token.
unfoldable pub dissimilar : Unicode → Text → Text → Bool
unfolding overlap
dissimilar u left right =
    let a = tokens u left in
    let b = tokens u right in
    let (common, all_tokens) = overlap a b in
    if is_nil a || is_nil b then true else ltb (10 * common) (8 * all_tokens)
