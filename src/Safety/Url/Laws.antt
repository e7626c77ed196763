-- ===== src/Safety/Url/Laws.antt =====
-- Which target URLs the worker accepts, over every answer of the name service.
use price_scout.Base.{◌≡◌, refl, ◌⊎◌, inl, inr, ◌↔◌, Bool, true, false, ◌&&◌}
use price_scout.Base.{some, List, [], ◌∷◌, arith, any, Bool-cases, Option-cases, ◌≢◌, All}
use price_scout.Base.Text.{Text, codes, text_eq, text_eq_refl, eq_of_text_eq, truthy}
use price_scout.Base.Effects.{ok, Result-cases}
use price_scout.Outside.{Platform, Outside, Url, dns_lookup}
use price_scout.Outside.Act.{St, call}
use price_scout.Safety.Address.{is_private_address}
use price_scout.Safety.Url.{
  unsafe_ports, has, check_url, check_addresses, check_host, validate_target_url,
  assert_same_origin,
}

-- The tests on the URL itself.
pub record IsWebUrl (url : Url) : Type 0 where
  pub protocol : (url.protocol ≡ codes "http:") ⊎ (url.protocol ≡ codes "https:")
  pub no_username : url.username ≡ []
  pub no_password : url.password ≡ []
  pub port : has unsafe_ports url.port ≡ false

port_checked : (t : Text) → (truthy t && has unsafe_ports t) ≡ false → has unsafe_ports t ≡ false
unfolding text_eq
port_checked [] h = refl
port_checked (c ∷ t) h = h

falsy : (t : Text) → truthy t ≡ false → t ≡ []
falsy [] h = refl
falsy (c ∷ t) h = cc

-- The four tests, as `check_url` makes them.
module _ (p : Platform) (url : Url) where
  tests_of_check :
      check_url p url ≡ ok tt
      → ((text_eq url.protocol (codes "http:") ≡ true)
          ⊎ (text_eq url.protocol (codes "https:") ≡ true))
        × (truthy url.username ≡ false)
        × (truthy url.password ≡ false)
        × ((truthy url.port && has unsafe_ports url.port) ≡ false)
  unfolding check_url
  tests_of_check h = (ground arith, ground arith, ground arith, ground arith)

  check_url_sound : check_url p url ≡ ok tt → IsWebUrl url
  check_url_sound h =
      let (scheme, user, pass, port) = tests_of_check h in
      record {
        protocol = elim scheme [
          | inl e ↦ inl (eq_of_text_eq _ _ e)
          | inr e ↦ inr (eq_of_text_eq _ _ e)
        ];
        no_username = falsy _ user;
        no_password = falsy _ pass;
        port = port_checked _ port;
      }

  check_url_complete : IsWebUrl url → check_url p url ≡ ok tt
  unfolding check_url
  check_url_complete h =
      let same = λ (t : Text) (e : url.protocol ≡ t).
        let r : text_eq url.protocol t ≡ true = rw e (text_eq_refl t) in r in
      elim h.protocol [
        | inl e ↦
            let scheme = same _ e in
            rw (scheme, h.no_username, h.no_password, h.port) (ground arith)
        | inr e ↦
            let scheme = same _ e in
            rw (scheme, h.no_username, h.no_password, h.port) (ground arith)
      ]

-- The text is a URL of the expected origin.
abbrev pub SameOrigin : Platform → Text → Url → Type 0
SameOrigin p current expected =
    (url : Url) × (p.parse_url current ≡ some url) × (url.origin ≡ expected.origin)

module _ (p : Platform) (current : Text) (expected : Url) where
  SameOrigin-to : assert_same_origin p current expected ≡ ok tt → SameOrigin p current expected
  unfolding assert_same_origin
  SameOrigin-to h = elim (Option-cases (p.parse_url current)) [
    | inl e ↦ absurd (ground arith)
    | inr (url, e) ↦ (url, e, eq_of_text_eq url.origin expected.origin (ground arith))
  ]

  -- `assertSameOrigin` accepts exactly the texts that parse to a URL with the expected origin.
  pub assert_same_origin_iff :
      (assert_same_origin p current expected ≡ ok tt) ↔ SameOrigin p current expected
  unfolding assert_same_origin
  assert_same_origin_iff = (
    SameOrigin-to,
    λ (url, parsed, same). ground (arith, parsed, same, text_eq_refl expected.origin),
  )

module _ (p : Platform) (o : Outside) where
  -- The address is none that `isPrivateAddress` refuses.
  abbrev pub IsUnrefused : Text → Type 0
  IsUnrefused address = is_private_address p.numbers p.unicode address ≡ false

  -- What name resolution answers for the host in a world.
  abbrev pub Resolves : Text → o.World → List Text → Type 0
  Resolves host w addresses = (o.respond (dns_lookup host) w).0 ≡ ok addresses

  -- An IP literal is exempt. A name, exempt or not, resolves to at least one address, and all its
  -- addresses pass `isPrivateAddress` unless the name is exempt.
  pub record IsOpenHost (allowed : List Text) (host : Text) (w : o.World) : Type 0 where
    pub literal : p.is_ip host ≡ true → has allowed host ≡ true
    pub resolved :
        p.is_ip host ≡ false
        → (addresses : List Text) × Resolves host w addresses
          × (addresses ≢ [])
          × ((has allowed host ≡ true) ⊎ All IsUnrefused addresses)

  not_any_iff :
      (addresses : List Text)
      → (any (is_private_address p.numbers p.unicode) addresses ≡ false) ↔ All IsUnrefused addresses
  not_any_iff [] = (λ e. tt, λ h. refl)
  not_any_iff (a ∷ rest) = (
    λ e. (ground arith, (not_any_iff rest).0 (ground arith)),
    λ h. ground (arith, (not_any_iff rest).1 h.1),
  )

  check_addresses_iff :
      (exempt : Bool) (host : Text) (addresses : List Text)
      → (check_addresses p exempt host addresses ≡ ok tt)
        ↔ ((addresses ≢ []) × ((exempt ≡ true) ⊎ All IsUnrefused addresses))
  unfolding check_addresses
  check_addresses_iff exempt host [] = (λ e. cc, λ h. absurd (h.0 refl))
  check_addresses_iff true host (a ∷ rest) = (λ e. (λ n. cc, inl refl), λ h. refl)
  check_addresses_iff false host (a ∷ rest) = (
    λ e. (λ n. cc, inr ((not_any_iff (a ∷ rest)).0 (ground arith))),
    λ h. elim (h.1) [ inl n ↦ cc | inr q ↦ rw ((not_any_iff (a ∷ rest)).1 q) ],
  )

  module _ (allowed : List Text) (host : Text) (s : St o) where
    check_host_literal :
        p.is_ip host ≡ true → (check_host p allowed host s).0 ≡ ok tt → has allowed host ≡ true
    unfolding check_host
    check_host_literal ip h = elim (Bool-cases (has allowed host)) [
      | inl e ↦ e
      | inr e ↦ cc (rw (ip, e) at h)
    ]

    check_host_name :
        p.is_ip host ≡ false
        → (check_host p allowed host s).0 ≡ ok tt
        → (addresses : List Text) × Resolves host s.world addresses
          × (check_addresses p (has allowed host) host addresses ≡ ok tt)
    unfolding check_host call
    check_host_name name h = elim (Result-cases (o.respond (dns_lookup host) s.world).0) [
      | inl (a, e) ↦ (a, e, ground arith)
      | inr (f, e) ↦ absurd (ground arith)
    ]

    check_host_from : IsOpenHost allowed host s.world → (check_host p allowed host s).0 ≡ ok tt
    unfolding check_host call
    check_host_from h = elim (Bool-cases (p.is_ip host)) [
      | inl ip ↦ rw (ip, h.literal ip)
      | inr name ↦
          let (addresses, answer, some_address, public) = h.resolved name in
          let checked =
            (check_addresses_iff (has allowed host) host addresses).1 (some_address, public) in
          ground arith
    ]

    check_host_iff : ((check_host p allowed host s).0 ≡ ok tt) ↔ IsOpenHost allowed host s.world
    check_host_iff = (
      λ h. record {
        literal = λ ip. check_host_literal ip h;
        resolved = λ name.
            let (addresses, answer, checked) = check_host_name name h in
            let (some_address, public) =
              (check_addresses_iff (has allowed host) host addresses).0 checked in
            (addresses, answer, some_address, public);
      },
      check_host_from,
    )

  -- An accepted URL, with what the worker goes on with.
  pub record IsAccepted (input : Text) (allowed : List Text) (w : o.World) (target : Url)
      : Type 0 where
    pub url : Url
    pub parsed : p.parse_url input ≡ some url
    pub web : IsWebUrl url
    pub host : IsOpenHost allowed (p.unicode.lower url.hostname) w
    pub stripped : target ≡ p.without_hash url

  module _ (input : Text) (allowed : List Text) (s : St o) (target : Url) where
    IsAccepted-to :
        (validate_target_url p input allowed s).0 ≡ ok target
        → IsAccepted input allowed s.world target
    unfolding validate_target_url
    IsAccepted-to h = elim (Option-cases (p.parse_url input)) [
      | inl e ↦ absurd (ground arith)
      | inr (url, e) ↦ record {
        url = url;
        parsed = e;
        web = check_url_sound p url (ground arith);
        host = (check_host_iff allowed (p.unicode.lower url.hostname) s).0 (ground arith);
        stripped = ground arith;
      }
    ]

    accepted_from :
        IsAccepted input allowed s.world target
        → (validate_target_url p input allowed s).0 ≡ ok target
    unfolding validate_target_url
    accepted_from h =
        let checked = check_url_complete p h.url h.web in
        let open_host = (check_host_iff allowed (p.unicode.lower h.url.hostname) s).1 h.host in
        ground (arith, h.parsed, h.stripped)

    -- `validateTargetUrl` returns a URL exactly if the text parses, to a web URL without
    -- credentials and unsafe port, and its host is an exempt IP literal, or a name that resolves to
    -- some addresses and is exempt, or else has no address that `isPrivateAddress` refuses. It
    -- returns the URL without its hash.
    pub validate_target_url_iff :
        ((validate_target_url p input allowed s).0 ≡ ok target)
        ↔ IsAccepted input allowed s.world target
    validate_target_url_iff = (IsAccepted-to, accepted_from)
