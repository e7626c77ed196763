-- ===== src/Config.antt =====
-- worker/src/config.ts: the settings that the modelled parts read, and the parsing of the list of
-- private hosts. The schema library that checks the environment is not modelled.
use price_scout.Base.{ℕ, Option, List, map, keep}
use price_scout.Base.Text.{Text, split, trim, truthy}
use price_scout.Base.Unicode.{Unicode}
use price_scout.Contracts.{Provider, CompilerMode}

pub record Config : Type 0 where
  pub worker_token : Text
  pub internal_api_url : Text
  pub worker_queue : Text
  pub worker_max_in_flight : ℕ
  pub inference_mode : CompilerMode
  pub browser_provider : Provider
  pub model_name : Text
  pub model_api_key : Option Text
  pub artifact_dir : Text
  pub fixture_origin : Text
  pub allowed_private_hosts : List Text

-- `loadConfig`: the set of hosts from the comma-separated setting
unfoldable pub private_hosts : Unicode → Text → List Text
private_hosts u setting = keep truthy (map (λ host. u.lower (trim host)) (split b',' setting))
