-- ===== src/Safety/Url.antt =====
-- `validateTargetUrl` and `assertSameOrigin` of worker/src/safety.ts.
pub mod Laws
use price_scout.Base.{Bool, true, false, not, ◌&&◌, ◌||◌, Option, none, some, List, [], ◌∷◌, ◌++◌}
use price_scout.Base.{any, if◌then◌else◌}
use price_scout.Base.Text.{Text, codes, text_eq, truthy}
use price_scout.Base.Effects.{Result, ok, err, Check, Failure, safety, plain, msg}
use price_scout.Outside.{Platform, Outside, Url, dns_lookup}
use price_scout.Outside.Act.{Act, call, pure, throw, lift, catch, ◌>>=◌, ◌>>◌}
use price_scout.Safety.Address.{is_private_address}

abbrev pub unsafe_ports : List Text
unsafe_ports =
    codes "21"
    ∷ codes "22"
    ∷ codes "23"
    ∷ codes "25"
    ∷ codes "53"
    ∷ codes "2375"
    ∷ codes "2376"
    ∷ codes "3306"
    ∷ codes "5432"
    ∷ codes "6379"
    ∷ codes "11211"
    ∷ []

-- `set.has(text)`
abbrev pub has : List Text → Text → Bool
has set t = any (text_eq t) set

module _ {A : Type 0} where
  abbrev pub or_throw : Text → Option A → Result A
  or_throw message none = err (safety message)
  or_throw message (some a) = ok a

abbrev pub is_nil : List Text → Bool
is_nil [] = true
is_nil (_ ∷ _) = false

module _ (p : Platform) where
  -- The tests that need no name resolution.
  unfoldable pub check_url : Url → Check
  check_url url =
      if not (text_eq url.protocol (codes "http:")) && not (text_eq url.protocol (codes "https:"))
      then err (safety (msg "Only HTTP and HTTPS product URLs are supported"))
      else if truthy url.username || truthy url.password
      then err (safety (msg "Credentials in product URLs are not allowed"))
      else if truthy url.port && has unsafe_ports url.port
      then err (safety (msg "Port " ++ url.port ++ msg " is not allowed"))
      else ok tt

  unfoldable pub check_addresses : Bool → Text → List Text → Check
  check_addresses exempt hostname addresses =
      if is_nil addresses
      then err (safety (msg "Target host " ++ hostname ++ msg " has no addresses"))
      else if not exempt && any (is_private_address p.numbers p.unicode) addresses
      then err (safety (msg "Target resolves to a private or special-use address"))
      else ok tt

  module _ {o : Outside} where
    unfoldable pub check_host : List Text → Text → Act o (Unit {0})
    check_host allowed hostname =
        let exempt = has allowed hostname in
        if p.is_ip hostname
        then lift
            (if exempt then ok tt else err (safety (msg "IP-literal product URLs are not allowed")))
        else do
          addresses ←
              catch (call (dns_lookup hostname))
                (λ _. throw (safety (msg "Unable to resolve target host " ++ hostname)))
          lift (check_addresses exempt hostname addresses)

    unfoldable pub validate_target_url : Text → List Text → Act o Url
    unfolding check_url check_host
    validate_target_url input allowed = do
      url ← lift (or_throw (msg "Target URL is invalid") (p.parse_url input))
      lift (check_url url)
      check_host allowed (p.unicode.lower url.hostname)
      pure (p.without_hash url)

  -- The constructor of `URL` throws a plain error on an invalid text.
  unfoldable pub assert_same_origin : Text → Url → Check
  assert_same_origin actual expected = elim (p.parse_url actual) [
    | none ↦ err (plain (msg "Invalid URL"))
    | some url ↦
        if text_eq url.origin expected.origin
        then ok tt
        else err (safety (msg "Navigation left the allowed origin (" ++ url.origin ++ msg ")"))
  ]
