-- ===== src/Web/Pages/NewMonitor.antt =====
-- `NewMonitorPage` of web/src/pages/NewMonitorPage.tsx: submitting the form for a monitor.
pub mod Laws
use price_scout.Base.{ℕ, Bool, true, false, ◌||◌, Option, none, some, ◌++◌}
use price_scout.Base.{length, ltb, if◌then◌else◌}
use price_scout.Base.Text.{Text, codes, text_eq, trim}
use price_scout.Outside.{Url}
use price_scout.Web.Types.{CreateMonitorInput, CreateMonitorResult}
use price_scout.Web.Client.Request.{Answer, and_then}
use price_scout.Web.Client.Operations.{Browser, create_monitor}

pub record Form : Type 0 where
  pub url : Text
  pub intent : Text
  pub interval_minutes : ℕ

abbrev pub initial_form : Form
initial_form = record { url = codes ""; intent = codes ""; interval_minutes = 360 }

-- A message at the form, or the answer to the request, with the path that the page moves to.
pub data Outcome : Type 0 where
  field_error : Text → Outcome
  sent : Answer Text → Outcome

abbrev pub is_web_protocol : Text → Bool
is_web_protocol protocol = text_eq protocol (codes "http:") || text_eq protocol (codes "https:")

abbrev pub is_web_url : Option Url → Bool
is_web_url none = false
is_web_url (some url) = is_web_protocol url.protocol

abbrev pub url_message : Text
url_message = codes "Enter a complete public http or https product URL."

abbrev pub intent_message : Text
intent_message = codes "Describe the product, variant, and condition in a little more detail."

abbrev pub input : Form → CreateMonitorInput
input form = record {
  url = trim form.url;
  intent = trim form.intent;
  interval_minutes = form.interval_minutes;
}

abbrev pub monitor_page : CreateMonitorResult → Text
monitor_page result = codes "/monitors/" ++ result.monitor.id

module _ (b : Browser) (parse_url : Text → Option Url) where
  unfoldable pub submit : Form → Outcome
  submit form =
      if is_web_url (parse_url form.url)
      then if ltb (length (trim form.intent)) 8
        then field_error intent_message
        else sent (and_then monitor_page (create_monitor b (input form)))
      else field_error url_message
