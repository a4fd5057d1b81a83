-- ===== src/Config/Convert.antt =====
-- internal/config/checks.go: `convertCheck`, case by case, and `Target`.
pub mod Shape
use technician.Common.{
  Bool, false, not, ◌&&◌, ◌||◌, Option, none, some, [], if◌then◌else◌, ◌==◌, nat_eq, Str, str_eq,
}
use technician.Common.Int.{pos, leb_ℤ}
use technician.Common.Text.{codes}
use technician.Config.Kind.{
  CheckType, http, smtp, traceroute, playwright, tcp, dns, icmp, grpc, ntp, tls, udp, bgp,
  domain_expiry, websocket, other,
}
use technician.Config.Types.{
  CheckConfig, HttpCheckConfig, BgpCheckConfig, WebSocketCheckConfig, PlaywrightCheckConfig,
}
use technician.Config.Yaml.{CheckYaml}
use technician.Config.Validate.{
  ConfigError, Checked, refused, accepted, validate_tls_versions, validate_assertions,
  type_required, unknown_type, auth_exclusive, invalid_proxy, invalid_prefix, origin_required,
  websocket_url,
}
use technician.Config.Cases.{
  base_config, has_auth, http_config, tcp_config, dns_config, icmp_config, grpc_config, ntp_config,
  tls_config, udp_config, bgp_config, domain_expiry_config, smtp_config, smtp_error,
  traceroute_config, websocket_config,
}

-- What `url.Parse` reads of a URL.
pub record Url : Type 0 where
  pub scheme : Str
  pub host : Str
  pub hostname : Str

-- The functions of Go's standard library that a check's configuration goes through. `none` is an
-- error.
pub record Platform : Type 0 where
  pub parse_url : Str → Option Url
  -- `netip.ParsePrefix` and `regexp.Compile`: whether they accept a text
  pub is_prefix : Str → Bool
  pub compiles : Str → Bool
  pub is_abs : Str → Bool
  pub join : Str → Str → Str
  pub dir : Str → Str
  -- `net.SplitHostPort`: the host
  pub split_host_port : Str → Option Str

module _ (p : Platform) where
  -- whether a text is a URL with a scheme and a host
  unfoldable pub is_proxy : Str → Bool
  is_proxy s = elim (p.parse_url s) [
    | none ↦ false
    | some u ↦ not (u.scheme == []) && not (u.host == [])
  ]

  unfoldable pub is_websocket : Str → Bool
  is_websocket s = elim (p.parse_url s) [
    | none ↦ false
    | some u ↦ (u.scheme == codes "ws" || u.scheme == codes "wss") && not (u.host == [])
  ]

  -- the errors of the case `CheckTypeHTTP`, in order
  unfoldable pub http_error : HttpCheckConfig → Option ConfigError
  http_error h = elim (validate_tls_versions h.min_tls h.max_tls) [
    | some e ↦ some e
    | none ↦
        if has_auth h.basic_auth && not (h.bearer_token == [])
        then some auth_exclusive
        else if not (h.proxy == []) && not (is_proxy h.proxy)
        then some invalid_proxy
        else validate_assertions p.compiles 0 h.assertions
  ]

-- `CheckConfig{}, err` if there is an error
abbrev pub unless : Option ConfigError → CheckConfig → Checked CheckConfig
unless none c = accepted c
unless (some e) c = refused e

module _ (p : Platform) where
  -- a relative path of a script is taken from the file's directory
  unfoldable pub playwright_config : CheckYaml → Str → PlaywrightCheckConfig
  playwright_config r path = record {
    script =
        if not (p.is_abs r.script) && not (r.script == [])
        then p.join (p.dir path) r.script
        else r.script;
    authenticator = r.authenticator;
    base_url = r.base_url;
    video = r.video;
    network = r.network;
    device = r.device;
  }

  -- the errors of the case `CheckTypeBGP`
  unfoldable pub bgp_error : BgpCheckConfig → Option ConfigError
  bgp_error b =
      if not (p.is_prefix b.prefix)
      then some invalid_prefix
      else if leb_ℤ b.expected_origin (pos 0)
      then some origin_required
      else none

  -- the error of the case `CheckTypeWebSocket`
  unfoldable pub websocket_error : WebSocketCheckConfig → Option ConfigError
  unfolding is_websocket
  websocket_error w = if is_websocket p w.url then none else some websocket_url

  -- the `switch` of `convertCheck`
  unfoldable pub convert_case : CheckType → CheckYaml → Str → Checked CheckConfig
  convert_case http r path =
      unless (http_error p (http_config r)) (record (base_config r) { http = some (http_config r) })
  convert_case tcp r path =
      unless (validate_tls_versions r.min_tls r.max_tls)
        (record (base_config r) { tcp = some (tcp_config r) })
  convert_case dns r path = accepted (record (base_config r) { dns = some (dns_config r) })
  convert_case icmp r path = accepted (record (base_config r) { icmp = some (icmp_config r) })
  convert_case grpc r path = accepted (record (base_config r) { grpc = some (grpc_config r) })
  convert_case ntp r path = accepted (record (base_config r) { ntp = some (ntp_config r) })
  convert_case tls r path = accepted (record (base_config r) { tls = some (tls_config r) })
  convert_case udp r path = accepted (record (base_config r) { udp = some (udp_config r) })
  convert_case bgp r path =
      unless (bgp_error (bgp_config r)) (record (base_config r) { bgp = some (bgp_config r) })
  convert_case domain_expiry r path =
      accepted (record (base_config r) { domain_expiry = some (domain_expiry_config r) })
  convert_case smtp r path =
      unless (smtp_error (smtp_config r)) (record (base_config r) { smtp = some (smtp_config r) })
  convert_case traceroute r path =
      accepted (record (base_config r) { traceroute = some (traceroute_config r) })
  convert_case playwright r path =
      accepted (record (base_config r) { playwright = some (playwright_config r path) })
  convert_case websocket r path =
      unless (websocket_error (websocket_config r))
        (record (base_config r) { websocket = some (websocket_config r) })
  convert_case (other s) r path =
      refused (if s == [] then type_required else unknown_type (other s))

  -- `convertCheck`: the empty type is refused before the `switch`
  unfoldable pub convert_check : CheckYaml → Str → Checked CheckConfig
  unfolding convert_case
  convert_check r path = convert_case r.typ r path
