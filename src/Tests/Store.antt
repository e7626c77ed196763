-- ===== src/Tests/Store.antt =====
-- Theorems on the store that the compiler is tried on.
use price_scout.Base.{◌≡◌, ◌⊎◌, refl, inl, some, [], ◌∷◌}
use price_scout.Base.Text.{Text, codes, text_eq, starts_with}
use price_scout.Outside.{num, obj, end, member}
use price_scout.Fixture.{
  initial_state, post_method, Target, Request, Body, Decoder, gather, read_json, handle, serve,
}
use price_scout.Fixture.Page.{structured_data}
use price_scout.Fixture.Page.Laws.{IsReadAs, serve-IsReadAs}
use price_scout.Tests.Shop.{platform}
use price_scout.Fixture.Laws.{IsAuthorised, Moves, IsSound, handle-Effect, serve-IsSound}

-- Every body is a price of one hundred.
abbrev decoder : Decoder
decoder = record {
  parse = λ t. inl (obj (member (codes "priceMinor") (num (codes "100")) end));
  number = λ v. some 100;
}

abbrev post : Text → Request
post path = record {
  method = post_method;
  target = Target.at path;
  token = some (codes "secret");
  chunks = codes "{}" ∷ [];
}

repriced :
    (handle decoder (codes "secret") (post (codes "/__control/price")) initial_state).1
    ≡ record initial_state { base_price_minor = 100 }
unfolding handle starts_with text_eq read_json gather
repriced = refl

handle-Effect_example :
    ((handle decoder (codes "secret") (post (codes "/__control/price")) initial_state).1
      ≡ initial_state)
    ⊎ (IsAuthorised (codes "secret") (post (codes "/__control/price"))
        × Moves initial_state
            (handle decoder (codes "secret") (post (codes "/__control/price")) initial_state).1
        × ((handle decoder (codes "secret") (post (codes "/__control/price")) initial_state).0
            ≡ record {
              status = 200;
              body =
                  Body.state
                    (handle decoder
                      (codes "secret")
                      (post (codes "/__control/price"))
                      initial_state).1;
            }))
handle-Effect_example =
    handle-Effect decoder (codes "secret") (post (codes "/__control/price")) initial_state

serve-IsSound_example : IsSound (
    serve decoder
      (codes "secret")
      (post (codes "/__control/deploy") ∷ post (codes "/__control/price") ∷ [])
      initial_state)
serve-IsSound_example =
    serve-IsSound decoder (codes "secret")
      (post (codes "/__control/deploy") ∷ post (codes "/__control/price") ∷ [])

serve-IsReadAs_example :
    IsReadAs platform
      (structured_data
        (serve decoder (codes "secret") (post (codes "/__control/price") ∷ []) initial_state))
      (serve decoder (codes "secret") (post (codes "/__control/price") ∷ []) initial_state)
serve-IsReadAs_example =
    serve-IsReadAs platform decoder (codes "secret") (post (codes "/__control/price") ∷ [])
