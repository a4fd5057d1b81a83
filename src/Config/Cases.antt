-- ===== src/Config/Cases.antt =====
-- internal/config/checks.go: what the cases of `convertCheck` take from an entry, with the defaults.
use technician.Common.{
  Bool, true, false, not, ◌&&◌, ◌||◌, Option, none, some, [], nat_beq, if◌then◌else◌, ◌==◌, nat_eq,
  Str, str_eq,
}
use technician.Common.Int.{ℤ, pos}
use technician.Common.Text.{codes}
use technician.Config.Types.{
  CheckConfig, HttpCheckConfig, TcpCheckConfig, DnsCheckConfig, IcmpCheckConfig, GrpcCheckConfig,
  NtpCheckConfig, TlsCheckConfig, UdpCheckConfig, BgpCheckConfig, DomainExpirationCheckConfig,
  SmtpCheckConfig, TracerouteCheckConfig, WebSocketCheckConfig,
}
use technician.Config.Yaml.{CheckYaml}
use technician.Config.Validate.{ConfigError, smtp_pair, smtp_start_tls}

abbrev or_text : Str → Str → Str
or_text s d = if s == [] then d else s

abbrev or_int : ℤ → ℤ → ℤ
or_int (pos n) d = if nat_beq n 0 then d else pos n
or_int n d = n

abbrev or_true : Option Bool → Bool
or_true none = true
or_true (some b) = b

-- the literal before the `switch`
unfoldable pub base_config : CheckYaml → CheckConfig
base_config r = record {
  name = r.name;
  typ = r.typ;
  group = r.group;
  tags = r.tags;
  schedule = r.schedule;
  timeout = r.timeout;
  retry = r.retry;
  degraded_after = r.degraded_after;
  http = none;
  smtp = none;
  traceroute = none;
  playwright = none;
  tcp = none;
  dns = none;
  icmp = none;
  grpc = none;
  ntp = none;
  tls = none;
  udp = none;
  bgp = none;
  domain_expiry = none;
  websocket = none;
}

abbrev pub has_auth : {A : Type 0} → Option A → Bool
has_auth none = false
has_auth (some a) = true

unfoldable pub http_config : CheckYaml → HttpCheckConfig
http_config r = record {
  url = r.url;
  method = or_text r.method (codes "GET");
  expected_status = or_int r.expected_status (pos 200);
  headers = r.headers;
  body = r.body;
  skip_tls = r.skip_tls;
  follow_redirects = r.follow_redirects;
  ip_version = r.ip_version;
  min_tls = r.min_tls;
  max_tls = r.max_tls;
  basic_auth = r.basic_auth;
  bearer_token = r.bearer_token;
  proxy = r.proxy;
  assertions = r.assertions;
}

unfoldable pub tcp_config : CheckYaml → TcpCheckConfig
tcp_config r = record {
  host = r.host;
  port = r.port;
  ip_version = r.ip_version;
  tls = r.tls;
  min_tls = r.min_tls;
  max_tls = r.max_tls;
  send = r.send;
  expect_recv = r.expect_recv;
}

unfoldable pub dns_config : CheckYaml → DnsCheckConfig
dns_config r = record {
  domain = r.domain;
  server = or_text r.server (codes "8.8.8.8:53");
  record_type = or_text r.record_type (codes "A");
  expected = r.expected;
}

unfoldable pub icmp_config : CheckYaml → IcmpCheckConfig
icmp_config r = record { host = r.host; count = or_int r.count (pos 3); ip_version = r.ip_version }

unfoldable pub grpc_config : CheckYaml → GrpcCheckConfig
grpc_config r = record { host = r.host; service = r.service; tls = r.tls; skip_tls = r.skip_tls }

unfoldable pub ntp_config : CheckYaml → NtpCheckConfig
ntp_config r = record { server = r.server; port = or_int r.port (pos 123) }

unfoldable pub tls_config : CheckYaml → TlsCheckConfig
tls_config r = record {
  host = r.host;
  check_expiry = or_true r.check_expiry;
  warn_days = or_int r.warn_days (pos 30);
  critical_days = or_int r.critical_days (pos 7);
}

unfoldable pub udp_config : CheckYaml → UdpCheckConfig
udp_config r = record {
  host = r.host;
  port = r.port;
  ip_version = r.ip_version;
  send = r.send;
  send_hex = r.send_hex;
  expect_response = r.expect_response;
  expect_recv = r.expect_recv;
  max_response_bytes = or_int r.max_response_bytes (pos 4096);
}

unfoldable pub bgp_config : CheckYaml → BgpCheckConfig
bgp_config r = record { prefix = r.prefix; expected_origin = r.expected_origin }

unfoldable pub domain_expiry_config : CheckYaml → DomainExpirationCheckConfig
domain_expiry_config r = record {
  domain = r.domain;
  warn_days = or_int r.warn_days (pos 30);
  critical_days = or_int r.critical_days (pos 7);
}

unfoldable pub smtp_config : CheckYaml → SmtpCheckConfig
smtp_config r = record {
  host = r.host;
  port = or_int r.port (pos 25);
  timeout = r.timeout;
  start_tls = r.start_tls;
  skip_tls = r.skip_tls;
  username = r.username;
  password = r.password;
}

-- the errors of the case `CheckTypeSMTP`
unfoldable pub smtp_error : SmtpCheckConfig → Option ConfigError
smtp_error s =
    let user = not (s.username == []) in
    let pass = not (s.password == []) in
    if (user && not pass) || (not user && pass)
    then some smtp_pair
    else if user && not s.start_tls
    then some smtp_start_tls
    else none

unfoldable pub traceroute_config : CheckYaml → TracerouteCheckConfig
traceroute_config r = record {
  host = r.host;
  max_hops = or_int r.max_hops (pos 30);
  count = or_int r.count (pos 3);
}

unfoldable pub websocket_config : CheckYaml → WebSocketCheckConfig
websocket_config r = record {
  url = r.url;
  send = r.send;
  expect_recv = r.expect_recv;
  skip_tls = r.skip_tls;
  headers = r.headers;
}
