-- ===== src/Tests/Safety.antt =====
-- Safety theorems on the shop.
use price_scout.Base.{◌≡◌, ◌↔◌, ◌⊎◌, [], ◌∷◌, arith}
use price_scout.Base.Text.{Text, codes}
use price_scout.Base.Unicode.{ascii}
use price_scout.Base.Numbers.{exact}
use price_scout.Base.Effects.{ok}
use price_scout.Outside.{main}
use price_scout.Outside.Makes.{Grows}
use price_scout.Safety.Action.{assert_safe_action}
use price_scout.Safety.Action.Laws.{IsSafeAction, assert_safe_action_iff}
use price_scout.Safety.Address.{is_private_address}
use price_scout.Safety.Address.Blocks.{address32, in_block, relays, is_denied}
use price_scout.Base.{◌&&◌, not}
use price_scout.Safety.Address.Dotted.{dotted, is_private_address-dotted}
use price_scout.Safety.Url.{validate_target_url}
use price_scout.Safety.Url.Laws.{IsAccepted, validate_target_url_iff}
use price_scout.Safety.Replay.{replay_safe_action}
use price_scout.Safety.Replay.Laws.{acts, replay_acts}
use price_scout.Artifacts.{capture_evidence}
use price_scout.Artifacts.Laws.{IsConfined, capture_evidence-IsConfined}
use price_scout.Tests.Shop.{platform, shop, start, shop_url, click}

abbrev product_url : Text
product_url = codes "http://fixture:4173/product"

assert_safe_action_iff_example : (assert_safe_action ascii click ≡ ok tt) ↔ IsSafeAction ascii click
assert_safe_action_iff_example = assert_safe_action_iff ascii click

is_private_address-dotted_example :
    is_private_address exact ascii (dotted 192 88 99 1)
    ≡ (is_denied 192 88 99 1 && not (in_block (address32 192 88 99 1) relays))
is_private_address-dotted_example =
    is_private_address-dotted exact 192 88 99 1 ascii (omega arith) (omega arith) (omega arith)
      (omega arith)

validate_target_url_iff_example :
    ((validate_target_url platform product_url (codes "fixture" ∷ []) start).0
      ≡ ok (shop_url product_url))
    ↔ IsAccepted platform shop product_url (codes "fixture" ∷ []) 0 (shop_url product_url)
validate_target_url_iff_example =
    validate_target_url_iff platform shop product_url (codes "fixture" ∷ []) start
      (shop_url product_url)

replay_acts_example :
    let t = (replay_safe_action platform {o = shop} main click (shop_url product_url) start).1 in
    (acts t ≡ []) ⊎ (IsSafeAction ascii click × (acts t ≡ click ∷ []))
replay_acts_example = replay_acts platform {o = shop} main click (shop_url product_url) start

capture_evidence-IsConfined_example :
    Grows
      (IsConfined (codes "/data/artifacts"))
      []
      (capture_evidence platform {o = shop} main
        (codes "/data/artifacts")
        (codes "run/1")
        start).1.calls
capture_evidence-IsConfined_example =
    capture_evidence-IsConfined platform shop main (codes "/data/artifacts") (codes "run/1") start
