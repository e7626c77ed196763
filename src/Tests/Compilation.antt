-- ===== src/Tests/Compilation.antt =====
-- A scripted compilation on the shop.
use price_scout.Base.{◌≡◌, refl, false, [], ◌∷◌}
use price_scout.Base.Effects.{ok}
use price_scout.Contracts.{compile, Source}
use price_scout.Outside.{Url, main}
use price_scout.Compiler.{choose_compiler, compile_monitor}
use price_scout.Outside.Act.{call}
use price_scout.Safety.Url.{assert_same_origin}
use price_scout.Base.Text.{codes, text_eq, starts_with, contains, trim}
use price_scout.Compiler.Fixture.{compile_fixture, confirm_plan}
use price_scout.Compiler.Fixture.Plan.{
  fixture_steps, fixture_variants, xpath_literal_part, variant_selector, fixture_plan, variant_step,
}
use price_scout.Safety.Action.{assert_safe_action, forbidden_interaction}
use price_scout.Regex.{test}
use price_scout.Regex.Scan.{match_all}
use price_scout.Compiler.Verify.{
  execute_and_verify, replay_steps, observe_valid, verify_fresh, Outcome,
}
use price_scout.Safety.Replay.{
  replay_safe_action, assert_safe_action_target, locate, perform, inspect, check_executed,
}
use price_scout.Browser.{replay}
use price_scout.Extract.{
  extract_observation, read_observation, read_first, read_first_from, attempt, read_strategy,
  interpret, read_variants,
}
use price_scout.Extract.Words.{parse_availability, normalize_currency}
use price_scout.Validation.Title.{fingerprint, normalize, collapse, dissimilar, tokens}
use price_scout.Validation.Price.{
  parse_price, compact, is_ambiguous, is_unsupported, detected_currencies, to_minor, adjacent_codes,
}
use price_scout.Validation.Numeral.{plain_numeral}
use price_scout.Base.Numbers.{decimal}
use price_scout.Contracts.Entries.{insert, lookup}
use price_scout.Validation.Identity.{validate_observation, check_product, check_variants}
use price_scout.Compiler.Laws.{IsConfirmed, compile_monitor_sound}
use price_scout.Tests.Shop.{platform, shop, start, config, job, observed, plan, click, shop_url}

abbrev product : Url
product = shop_url (codes "http://fixture:4173/product")

abbrev outcome : Outcome
outcome = record {
  plan =
      record (fixture_plan platform false (job compile) product
        ((codes "color", codes "black") ∷ []) (variant_step click ∷ [])) {
          identity = record plan.identity { fingerprint = observed.identity_fingerprint };
        };
  observation = observed;
  model_call_count = 0;
  source = Source.scripted;
}

compiled :
    (compile_monitor platform {o = shop} config main (job compile) product start).0 ≡ ok outcome
unfolding choose_compiler compile_monitor call assert_same_origin text_eq starts_with contains trim
    compile_fixture confirm_plan fixture_steps fixture_variants xpath_literal_part variant_selector
    fixture_plan assert_safe_action forbidden_interaction test match_all execute_and_verify
    replay_steps observe_valid verify_fresh replay_safe_action assert_safe_action_target locate
    perform inspect check_executed replay extract_observation read_observation read_first
    read_first_from attempt read_strategy interpret read_variants parse_availability
    normalize_currency fingerprint normalize collapse dissimilar tokens parse_price compact
    is_ambiguous is_unsupported detected_currencies to_minor adjacent_codes plain_numeral decimal
    insert lookup validate_observation check_product check_variants
compiled = refl

compile_monitor_sound_example : IsConfirmed platform outcome
compile_monitor_sound_example =
    compile_monitor_sound platform shop config main (job compile) product start outcome compiled
