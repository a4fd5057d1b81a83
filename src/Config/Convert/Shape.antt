-- ===== src/Config/Convert/Shape.antt =====
-- Which entries `convertCheck` accepts, and what an accepted check holds.
use technician.Common.{
  ◌≡◌, refl, sym, ap, subst, ◌∙◌, Bool, true, false, not, ◌&&◌, ◌||◌, Option, none, some, List, [],
  ◌∷◌, ◌++◌, arith, every, ◌==◌, nat_eq, Str, str_eq,
}
use technician.Common.Int.{pos, ltb_ℤ}
use technician.Config.Kind.{
  CheckType, http, smtp, traceroute, playwright, tcp, dns, icmp, grpc, ntp, tls, udp, bgp,
  domain_expiry, websocket, other,
}
use technician.Config.Types.{CheckConfig}
use technician.Config.Yaml.{CheckYaml}
use technician.Config.Validate.{
  ConfigError, Checked, refused, accepted, passes, validate_tls_versions, ordered_bounds,
  version_of, testable, validate_tls_versions-ordered, validate_assertions-testable,
}
use technician.Config.Cases.{
  base_config, has_auth, http_config, smtp_config, smtp_error, bgp_config, websocket_config,
}
use technician.Config.Convert.{
  Platform, unless, is_proxy, is_websocket, http_error, bgp_error, websocket_error, convert_case,
  convert_check,
}

abbrev pub is_accepted : Checked CheckConfig → Bool
is_accepted (accepted c) = true
is_accepted (refused e) = false

abbrev has_bearer : CheckYaml → Bool
has_bearer r = not (r.bearer_token == [])

module _ (p : Platform) where
  -- What an entry must hold for its type to be accepted.
  abbrev pub acceptable : CheckType → CheckYaml → Bool
  acceptable http r =
      ordered_bounds (version_of r.min_tls) (version_of r.max_tls)
      && not (has_auth r.basic_auth && has_bearer r)
      && (r.proxy == [] || is_proxy p r.proxy)
      && every (testable p.compiles) r.assertions
  acceptable tcp r = ordered_bounds (version_of r.min_tls) (version_of r.max_tls)
  acceptable bgp r = p.is_prefix r.prefix && ltb_ℤ (pos 0) r.expected_origin
  acceptable smtp r =
      (r.username == [] && r.password == [])
      || (not (r.username == []) && not (r.password == []) && r.start_tls)
  acceptable websocket r = is_websocket p r.url
  acceptable (other s) r = false
  acceptable _ r = true

  http_error-passes : (r : CheckYaml) → passes (http_error p (http_config r)) ≡ acceptable http r
  unfolding http_error http_config
  http_error-passes r = ground (
    arith,
    validate_tls_versions-ordered r.min_tls r.max_tls,
    validate_assertions-testable p.compiles 0 r.assertions,
  )

  bgp_error-passes : (r : CheckYaml) → passes (bgp_error p (bgp_config r)) ≡ acceptable bgp r
  unfolding bgp_error bgp_config
  bgp_error-passes r = ground arith

  websocket_error-passes :
      (r : CheckYaml) → passes (websocket_error p (websocket_config r)) ≡ acceptable websocket r
  unfolding websocket_error websocket_config
  websocket_error-passes r = ground arith

  smtp_error-passes : (r : CheckYaml) → passes (smtp_error (smtp_config r)) ≡ acceptable smtp r
  unfolding smtp_error smtp_config
  smtp_error-passes r = ground arith

  convert_case-accepts :
      (t : CheckType) (r : CheckYaml) (path : Str)
      → is_accepted (convert_case p t r path) ≡ acceptable t r
  unfolding convert_case
  convert_case-accepts http r path = ground (arith, http_error-passes r)
  convert_case-accepts tcp r path =
      ground (arith, validate_tls_versions-ordered r.min_tls r.max_tls)
  convert_case-accepts bgp r path = ground (arith, bgp_error-passes r)
  convert_case-accepts smtp r path = ground (arith, smtp_error-passes r)
  convert_case-accepts websocket r path = ground (arith, websocket_error-passes r)
  convert_case-accepts (other s) r path = refl
  convert_case-accepts _ r path = refl

  -- An entry is accepted exactly when its type is known and what it holds for that type is sound:
  -- TLS bounds in order, one kind of authentication, a proxy with a scheme and a host and assertions
  -- that can be tested for HTTP, TLS bounds for TCP, a prefix and an origin for BGP, a user with
  -- a password and STARTTLS or neither for SMTP, and a WebSocket URL.
  pub convert_check-accepts :
      (r : CheckYaml) (path : Str) → is_accepted (convert_check p r path) ≡ acceptable r.typ r
  unfolding convert_check
  convert_check-accepts r path = convert_case-accepts r.typ r path

abbrev set_type : {A : Type 0} → CheckType → Option A → List CheckType
set_type t none = []
set_type t (some a) = t ∷ []

-- The types of which a check holds a configuration.
abbrev pub set_types : CheckConfig → List CheckType
set_types c =
    set_type http c.http
    ++ set_type smtp c.smtp
    ++ set_type traceroute c.traceroute
    ++ set_type playwright c.playwright
    ++ set_type tcp c.tcp
    ++ set_type dns c.dns
    ++ set_type icmp c.icmp
    ++ set_type grpc c.grpc
    ++ set_type ntp c.ntp
    ++ set_type tls c.tls
    ++ set_type udp c.udp
    ++ set_type bgp c.bgp
    ++ set_type domain_expiry c.domain_expiry
    ++ set_type websocket c.websocket

-- What `base_config` sets, and the configuration of one type alone.
abbrev Shaped : CheckType → CheckYaml → Checked CheckConfig → Type 0
Shaped t r (refused e) = Unit {0}
Shaped t r (accepted c) =
    (c.name ≡ r.name)
    × (c.typ ≡ r.typ)
    × (c.retry ≡ r.retry)
    × (c.degraded_after ≡ r.degraded_after)
    × (set_types c ≡ t ∷ [])

unless-Shaped :
    (t : CheckType) (r : CheckYaml) (o : Option ConfigError) (c : CheckConfig)
    → Shaped t r (accepted c)
    → Shaped t r (unless o c)
unless-Shaped t r none c h = h
unless-Shaped t r (some e) c h = tt

module _ (p : Platform) where
  convert_case-Shaped :
      (t : CheckType) (r : CheckYaml) (path : Str) → Shaped t r (convert_case p t r path)
  unfolding convert_case base_config
  convert_case-Shaped http r path =
      unless-Shaped _ r (http_error p (http_config r)) _ (refl, refl, refl, refl, refl)
  convert_case-Shaped tcp r path =
      unless-Shaped _ r (validate_tls_versions r.min_tls r.max_tls) _ (refl, refl, refl, refl, refl)
  convert_case-Shaped bgp r path =
      unless-Shaped _ r (bgp_error p (bgp_config r)) _ (refl, refl, refl, refl, refl)
  convert_case-Shaped smtp r path =
      unless-Shaped _ r (smtp_error (smtp_config r)) _ (refl, refl, refl, refl, refl)
  convert_case-Shaped websocket r path =
      unless-Shaped _ r (websocket_error p (websocket_config r)) _ (refl, refl, refl, refl, refl)
  convert_case-Shaped (other s) r path = tt
  convert_case-Shaped _ r path = (refl, refl, refl, refl, refl)

  -- An accepted check has its entry's name, type, retries and latency threshold, and of the fourteen
  -- configurations it holds that of its own type and no other.
  pub convert_check-set_types :
      (r : CheckYaml) (path : Str) (c : CheckConfig)
      → convert_check p r path ≡ accepted c
      → (c.name ≡ r.name)
        × (c.typ ≡ r.typ)
        × (c.retry ≡ r.retry)
        × (c.degraded_after ≡ r.degraded_after)
        × (set_types c ≡ c.typ ∷ [])
  unfolding convert_check
  convert_check-set_types r path c e =
      let (a, b, d, f, g) = subst (Shaped r.typ r) e (convert_case-Shaped r.typ r path) in
      (a, b, d, f, g ∙ ap (λ t. t ∷ []) (sym b))
