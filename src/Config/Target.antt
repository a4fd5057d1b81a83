-- ===== src/Config/Target.antt =====
-- internal/config/checks.go: `Target`, `FindCheckByName` and the defaults of `LoadChecks`.
use technician.Common.{
  Bool, false, Option, none, some, List, [], ◌∷◌, nat_beq, if◌then◌else◌, ◌==◌, nat_eq, Str, str_eq,
}
use technician.Common.Int.{ℤ, pos}
use technician.Common.Text.{codes}
use technician.Config.Kind.{
  CheckType, http, smtp, traceroute, playwright, tcp, dns, icmp, grpc, ntp, tls, udp, bgp,
  domain_expiry, websocket, other,
}
use technician.Config.Types.{
  CheckConfig, HttpCheckConfig, TcpCheckConfig, DnsCheckConfig, IcmpCheckConfig, GrpcCheckConfig,
  NtpCheckConfig, TlsCheckConfig, UdpCheckConfig, BgpCheckConfig, DomainExpirationCheckConfig,
  SmtpCheckConfig, TracerouteCheckConfig, WebSocketCheckConfig, PlaywrightCheckConfig,
}
use technician.Config.Convert.{Platform}

-- `n == 0`
unfoldable pub is_zero : ℤ → Bool
is_zero (pos n) = nat_beq n 0
is_zero n = false

-- a field of a configuration, with the empty text for a nil pointer
abbrev field : {A : Type 0} → (A → Str) → Option A → Str
field f none = []
field f (some a) = f a

module _ (p : Platform) where
  -- `u.Hostname()` if the URL parses
  abbrev host_of : Str → Str
  host_of url = elim (p.parse_url url) [ none ↦ [] | some u ↦ u.hostname ]

  -- the `switch` of `Target`
  unfoldable pub raw_target : CheckType → CheckConfig → Str
  raw_target http c = field (λ (h : HttpCheckConfig). host_of h.url) c.http
  raw_target tcp c = field (λ (h : TcpCheckConfig). h.host) c.tcp
  raw_target udp c = field (λ (h : UdpCheckConfig). h.host) c.udp
  raw_target dns c = field (λ (h : DnsCheckConfig). h.domain) c.dns
  raw_target icmp c = field (λ (h : IcmpCheckConfig). h.host) c.icmp
  raw_target grpc c = field (λ (h : GrpcCheckConfig). h.host) c.grpc
  raw_target ntp c = field (λ (h : NtpCheckConfig). h.server) c.ntp
  raw_target tls c = field (λ (h : TlsCheckConfig). h.host) c.tls
  raw_target smtp c = field (λ (h : SmtpCheckConfig). h.host) c.smtp
  raw_target traceroute c = field (λ (h : TracerouteCheckConfig). h.host) c.traceroute
  raw_target bgp c = field (λ (h : BgpCheckConfig). h.prefix) c.bgp
  raw_target domain_expiry c = field (λ (h : DomainExpirationCheckConfig). h.domain) c.domain_expiry
  raw_target playwright c = field (λ (h : PlaywrightCheckConfig). host_of h.base_url) c.playwright
  raw_target websocket c = field (λ (h : WebSocketCheckConfig). host_of h.url) c.websocket
  raw_target (other s) c = []

  -- `Target`
  unfoldable pub target : CheckConfig → Str
  unfolding raw_target
  target c =
      let raw = raw_target c.typ c in
      if raw == [] then [] else elim (p.split_host_port raw) [ none ↦ raw | some host ↦ host ]

-- one round of the loop of `LoadChecks` over the checks
unfoldable pub with_defaults : CheckConfig → CheckConfig
unfolding is_zero
with_defaults c =
    let c' = if is_zero c.timeout then record c { timeout = pos 30000000000 } else c in
    if c'.schedule == [] then record c' { schedule = codes "*/30 * * * * *" } else c'

-- `FindCheckByName`
unfoldable pub find_check_by_name : List CheckConfig → Str → Option CheckConfig
find_check_by_name [] name = none
find_check_by_name (c ∷ cs) name = if c.name == name then some c else find_check_by_name cs name
