-- ===== src/Web/Pages/NewMonitor/Laws.antt =====
-- Which forms are sent.
use price_scout.Base.{◌≤◌, ◌≡◌, refl, ◌⊎◌, inl, inr, true, Option, none, some, arith}
use price_scout.Base.{length, ltb, Bool-cases}
use price_scout.Base.Text.{Text, codes, text_eq, eq_of_text_eq, trim}
use price_scout.Outside.{Url}
use price_scout.Web.Client.Request.{and_then}
use price_scout.Web.Client.Operations.{Browser, create_monitor}
use price_scout.Web.Pages.NewMonitor.{
  Form, field_error, sent, is_web_protocol, is_web_url, url_message, intent_message, input,
  monitor_page, submit,
}

abbrev pub IsWeb : Url → Type 0
IsWeb url = (url.protocol ≡ codes "http:") ⊎ (url.protocol ≡ codes "https:")

is_web_protocol-IsWeb : (url : Url) → is_web_protocol url.protocol ≡ true → IsWeb url
is_web_protocol-IsWeb url h = elim (Bool-cases (text_eq url.protocol (codes "http:"))) [
  | inl e ↦ inl (eq_of_text_eq url.protocol (codes "http:") e)
  | inr e ↦ inr (eq_of_text_eq url.protocol (codes "https:") (ground arith))
]

is_web_url-IsWeb : (url : Option Url) → is_web_url url ≡ true → (u : Url) × (url ≡ some u) × IsWeb u
is_web_url-IsWeb none h = absurd cc
is_web_url-IsWeb (some u) h = (u, refl, is_web_protocol-IsWeb u h)

IsWeb-is_web_protocol : (url : Url) → IsWeb url → is_web_protocol url.protocol ≡ true
unfolding text_eq
IsWeb-is_web_protocol url (inl e) = rw e refl
IsWeb-is_web_protocol url (inr e) = rw e refl

module _ (b : Browser) (parse_url : Text → Option Url) (form : Form) where
  -- The form can be sent.
  abbrev pub IsComplete : Type 0
  IsComplete =
      ((url : Url) × (parse_url form.url ≡ some url) × IsWeb url) × (8 ≤ length (trim form.intent))

  -- A form is sent, without the space around its URL and its instruction, exactly if its URL parses
  -- to one of the web and its trimmed instruction has at least eight units. Otherwise nothing is
  -- sent, and the page shows one of its two messages.
  pub submit-cases :
      (IsComplete
        × (submit b parse_url form ≡ sent (and_then monitor_page (create_monitor b (input form)))))
      ⊎ ((IsComplete → ⊥)
          × ((submit b parse_url form ≡ field_error url_message)
              ⊎ (submit b parse_url form ≡ field_error intent_message)))
  unfolding submit
  submit-cases = elim (Bool-cases (is_web_url (parse_url form.url))) [
    | inl web ↦ elim (Bool-cases (ltb (length (trim form.intent)) 8)) [
      | inl short ↦ inr (λ (url, long). ground arith, inr (rw (web, short) refl))
      | inr long ↦
          inl ((is_web_url-IsWeb (parse_url form.url) web, ground arith), rw (web, long) refl)
    ]
    | inr other ↦ inr (
      λ ((url, e, web), long).
          let good : is_web_url (parse_url form.url) ≡ true =
            rw e (IsWeb-is_web_protocol url web) in
          absurd cc,
      inl (rw other refl),
    )
  ]
