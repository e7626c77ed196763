-- ===== src/Safety/Action.antt =====
-- `assertSafeAction` of worker/src/safety.ts.
pub mod Laws
use price_scout.Base.{Bool, true, false, not, ◌||◌, Option, none, some, List, [], ◌∷◌, ◌++◌, any}
use price_scout.Base.Text.{Text, codes, text_eq, starts_with}
use price_scout.Base.Unicode.{Unicode}
use price_scout.Base.Effects.{Check, ok, err, safety, msg, ◌>>◌}
use price_scout.Contracts.{Action}
use price_scout.Regex.{Regex, seq, folded, folded_any, any_of, optional, test}
use price_scout.Regex.Phrases.{whole_words}

abbrev pub forbidden_phrase : Regex
forbidden_phrase = any_of (
    seq (folded (codes "add to ")) (folded_any ("cart" ∷ "bag" ∷ "basket" ∷ []))
    ∷ seq (folded (codes "buy")) (optional (folded (codes " now")))
    ∷ folded (codes "purchase")
    ∷ folded (codes "checkout")
    ∷ folded (codes "place order")
    ∷ folded (codes "submit payment")
    ∷ folded (codes "pay now")
    ∷ folded (codes "complete order")
    ∷ folded (codes "confirm order")
    ∷ folded (codes "order now")
    ∷ folded (codes "subscribe")
    ∷ [])

-- `forbiddenInteraction.test(text)`
unfoldable pub forbidden_interaction : Text → Bool
forbidden_interaction text = test (whole_words forbidden_phrase) text

abbrev pub allowed_methods : List Text
allowed_methods = codes "click" ∷ codes "selectoptionfromdropdown" ∷ codes "scrollto" ∷ []

-- `action.method ?? "click"`
abbrev pub method_or_click : Option Text → Text
method_or_click none = codes "click"
method_or_click (some m) = m

abbrev pub throw_if : Bool → Text → Check
throw_if true message = err (safety message)
throw_if false message = ok tt

unfoldable pub assert_safe_action : Unicode → Action → Check
assert_safe_action u action = do
  let method = u.lower (method_or_click action.method)
  throw_if (not (any (text_eq method) allowed_methods))
      (msg "Compiled action method " ++ method ++ msg " is not permitted")
  throw_if (forbidden_interaction action.description)
      (msg "Purchase and checkout actions are never permitted")
  throw_if
      (not (
        starts_with action.selector (codes "xpath=") || starts_with action.selector (codes "css=")))
      (msg "Only XPath and CSS selectors are permitted in cached actions")
