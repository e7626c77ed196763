-- ===== src/Safety/Action/Laws.antt =====
-- Which actions `assertSafeAction` accepts.
use price_scout.Base.{◌≡◌, refl, ◌⊎◌, inl, inr, ◌↔◌, Bool, true, false, not, ◌||◌, List, [], ◌∷◌}
use price_scout.Base.{◌++◌, arith, any, Bool-cases}
use price_scout.Base.Text.{
  Text, codes, text_eq, text_eq_refl, eq_of_text_eq, starts_with, starts_with-append,
}
use price_scout.Base.Unicode.{Unicode}
use price_scout.Base.Effects.{ok, ◌>>◌}
use price_scout.Contracts.{Action}
use price_scout.Regex.Members.{In}
use price_scout.Regex.Phrases.{
  Spells, Spells-alt, Spells-seq, Spells-folded, Spells-optional, Mentions, whole_words_iff,
}
use price_scout.Safety.Action.{
  forbidden_phrase, forbidden_interaction, allowed_methods, method_or_click, throw_if,
  assert_safe_action,
}

-- The phrases of which an action may mention none.
abbrev pub forbidden_phrases : List Text
forbidden_phrases =
    codes "add to cart"
    ∷ codes "add to bag"
    ∷ codes "add to basket"
    ∷ codes "buy now"
    ∷ codes "buy"
    ∷ codes "purchase"
    ∷ codes "checkout"
    ∷ codes "place order"
    ∷ codes "submit payment"
    ∷ codes "pay now"
    ∷ codes "complete order"
    ∷ codes "confirm order"
    ∷ codes "order now"
    ∷ codes "subscribe"
    ∷ []

forbidden_phrase-Spells : Spells forbidden_phrase forbidden_phrases
forbidden_phrase-Spells =
    Spells-alt
      (Spells-seq (Spells-folded (codes "add to ")) (
        Spells-alt (Spells-folded (codes "cart"))
          (Spells-alt (Spells-folded (codes "bag")) (Spells-folded (codes "basket")))))
      (Spells-alt
        (Spells-seq (Spells-folded (codes "buy")) (Spells-optional (Spells-folded (codes " now"))))
        (Spells-alt (Spells-folded (codes "purchase")) (
          Spells-alt (Spells-folded (codes "checkout")) (
            Spells-alt (Spells-folded (codes "place order")) (
              Spells-alt (Spells-folded (codes "submit payment")) (
                Spells-alt (Spells-folded (codes "pay now")) (
                  Spells-alt (Spells-folded (codes "complete order")) (
                    Spells-alt (Spells-folded (codes "confirm order")) (
                      Spells-alt (Spells-folded (codes "order now"))
                        (Spells-folded (codes "subscribe")))))))))))

-- The expression matches exactly the texts in which one of the phrases stands as whole words, in
-- upper or lower case.
forbidden_interaction_iff :
    (s : Text) → (forbidden_interaction s ≡ true) ↔ Mentions forbidden_phrases s
unfolding forbidden_interaction
forbidden_interaction_iff s = whole_words_iff forbidden_phrase-Spells s

abbrev pub HasPrefix : Text → Text → Type 0
HasPrefix p s = (rest : Text) × (s ≡ p ++ rest)

starts_with_sound : (s p : Text) → starts_with s p ≡ true → HasPrefix p s
unfolding starts_with
starts_with_sound s [] h = (s, refl)
starts_with_sound [] (b ∷ p) h = cc
starts_with_sound (a ∷ s) (b ∷ p) h =
    let (rest, e) = starts_with_sound s p (ground arith) in (rest, ground arith)

starts_with_iff : (s p : Text) → (starts_with s p ≡ true) ↔ HasPrefix p s
starts_with_iff s p = (starts_with_sound s p, λ (rest, e). rw e (starts_with-append p rest))

any-text_eq_iff : (s : Text) (ts : List Text) → (any (text_eq s) ts ≡ true) ↔ In s ts
any-text_eq_iff s [] = (λ e. cc, λ h. absurd h)
any-text_eq_iff s (t ∷ ts) = (
  λ h. elim (Bool-cases (text_eq s t)) [
    | inl e ↦ inl (eq_of_text_eq s t e)
    | inr e ↦ inr ((any-text_eq_iff s ts).0 (ground arith))
  ],
  λ h. elim h [
    | inl e ↦ rw (← e, text_eq_refl s)
    | inr i ↦ ground (arith, (any-text_eq_iff s ts).1 i)
  ],
)

not_of_iff : (b : Bool) {P : Type 0} → (b ≡ true) ↔ P → (b ≡ false) ↔ ¬ P
not_of_iff true p = (λ e. cc, λ h. absurd (h (p.0 refl)))
not_of_iff false p = (λ e h. cc (p.1 h), λ h. refl)

or_of_iff :
    (b c : Bool) {P Q : Type 0} → (b ≡ true) ↔ P → (c ≡ true) ↔ Q → ((b || c) ≡ true) ↔ (P ⊎ Q)
or_of_iff true c p q = (λ e. inl (p.0 refl), λ h. refl)
or_of_iff false c p q = (λ e. inr (q.0 e), λ h. elim h [ inl h ↦ cc (p.1 h) | inr h ↦ q.1 h ])

-- The conditions under which an action may be cached and replayed.
pub record IsSafeAction (u : Unicode) (action : Action) : Type 0 where
  pub method : In (u.lower (method_or_click action.method)) allowed_methods
  pub harmless : ¬ Mentions forbidden_phrases action.description
  pub selector :
      HasPrefix (codes "xpath=") action.selector ⊎ HasPrefix (codes "css=") action.selector

three_checks :
    (b c d : Bool) (m n k : Text)
    → ((throw_if (not b) m >> (throw_if c n >> throw_if (not d) k)) ≡ ok tt)
      ↔ ((b ≡ true) × (c ≡ false) × (d ≡ true))
three_checks true false true m n k = (λ e. (refl, refl, refl), λ h. refl)
three_checks false c d m n k = (λ e. cc, λ h. cc (h.0))
three_checks true true d m n k = (λ e. cc, λ h. cc (h.1))
three_checks true false false m n k = (λ e. cc, λ h. cc (h.2))

module _ (u : Unicode) (a : Action) where
  checks_iff : (assert_safe_action u a ≡ ok tt) ↔ (
      (any (text_eq (u.lower (method_or_click a.method))) allowed_methods ≡ true)
      × (forbidden_interaction a.description ≡ false)
      × ((starts_with a.selector (codes "xpath=") || starts_with a.selector (codes "css=")) ≡ true))
  unfolding assert_safe_action
  checks_iff = three_checks _ _ _ _ _ _

  -- `assertSafeAction` accepts exactly the actions with a permitted method, a description that
  -- mentions no forbidden phrase, and an XPath or CSS selector.
  pub assert_safe_action_iff : (assert_safe_action u a ≡ ok tt) ↔ IsSafeAction u a
  assert_safe_action_iff =
      let method = any-text_eq_iff (u.lower (method_or_click a.method)) allowed_methods in
      let harmless = not_of_iff _ (forbidden_interaction_iff a.description) in
      let selector =
        or_of_iff _ _ (starts_with_iff a.selector (codes "xpath="))
          (starts_with_iff a.selector (codes "css=")) in
      (
        λ h.
            let (x, y, z) = checks_iff.0 h in
            record { method = method.0 x; harmless = harmless.0 y; selector = selector.0 z },
        λ s. checks_iff.1 (method.1 s.method, harmless.1 s.harmless, selector.1 s.selector),
      )
