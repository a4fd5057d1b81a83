-- ===== src/Check.antt =====
-- internal/check/check.go: what one run of a check produces; the checkers are the child modules.
pub mod Fetch
pub mod Bgp
pub mod Http
pub mod Icmp
pub mod Tcp
pub mod Days
pub mod Tls
pub mod Domain
pub mod Dns
pub mod Report
pub mod Udp
pub mod Traceroute
pub mod Smtp
pub mod Websocket
pub mod Grpc
pub mod Ntp
use technician.Common.{
  List, ℕ, ltb, [], Option, none, some, Bool, true, false, Str, if◌then◌else◌, ◌&&◌,
}
use technician.Common.Int.{ℤ, pos, ltb_ℤ}
use technician.Common.Maps.{Map}
use technician.Config.Kind.{CheckType, icmp}
use technician.Config.Origin.{Origin, metric_labels}

-- Instants and durations are nanoseconds: an instant counts from Go's zero time, and no duration
-- that the program measures is negative. `F` stands for float64.
pub record AssertionResult : Type 0 where
  pub typ : Str
  pub target : Str
  pub passed : Bool
  pub message : Str

pub record WebVitals (F : Type 0) : Type 0 where
  pub ttfb : F
  pub fcp : F
  pub lcp : F
  pub cls : F
  pub inp : F
  pub dom_complete : F

pub record HarEntry (F : Type 0) : Type 0 where
  pub url : Str
  pub resource_type : Str
  pub duration : F
  pub transfer_size : ℤ
  pub response_size : ℤ
  pub status : ℤ

pub record HarData (F : Type 0) : Type 0 where
  pub entries : List (HarEntry F)
  pub total_transfer_bytes : ℤ

pub record TracerouteHop (F : Type 0) : Type 0 where
  pub hop : ℤ
  pub host : Str
  pub ip : Str
  pub asn : ℤ
  pub avg_ms : F
  pub loss_percent : F

pub record Result (F : Type 0) : Type 0 where
  pub name : Str
  pub typ : CheckType
  pub group : Str
  pub target : Str
  pub success : Bool
  pub infra_error : Bool
  pub duration : ℕ
  pub error : Str
  pub timestamp : ℕ
  pub status_code : ℤ
  pub dns_duration : ℕ
  pub tls_duration : ℕ
  pub conn_duration : ℕ
  pub ttfb_duration : ℕ
  pub transfer_duration : ℕ
  pub response_bytes : ℕ
  pub assertions : List AssertionResult
  pub web_vitals : Option (WebVitals F)
  pub har_data : Option (HarData F)
  pub video_path : Str
  pub resource_count : ℕ
  pub hops : List (TracerouteHop F)
  pub tcp_conn_duration : ℕ
  pub tcp_tls_duration : ℕ
  pub dns_answers : List Str
  pub dns_query_time : ℕ
  pub icmp_packets_sent : ℕ
  pub icmp_packets_recv : ℕ
  pub icmp_packet_loss : F
  pub icmp_min_rtt : ℕ
  pub icmp_avg_rtt : ℕ
  pub icmp_max_rtt : ℕ
  pub grpc_status : Str
  pub ntp_offset_ms : F
  pub ntp_stratum : ℕ
  pub ntp_rtt : ℤ
  pub udp_rtt : ℕ
  pub udp_response_bytes : ℕ
  pub ws_connect_duration : ℕ
  pub ws_message_duration : ℕ
  pub bgp_origin_asn : ℤ
  pub bgp_prefix_visible : Bool
  pub bgp_origin_match : Bool
  pub bgp_rpki_status : Str
  pub domain_expiry_date : ℕ
  pub domain_expiry_days : ℤ
  pub domain_registrar : Str
  pub domain_registered : Bool
  pub domain_warn_days_val : ℤ
  pub domain_crit_days_val : ℤ
  pub cert_subject : Str
  pub cert_issuer : Str
  pub cert_sans : List Str
  pub cert_expiry : ℕ
  pub cert_days_remaining : ℤ
  pub cert_valid : Bool
  pub cert_chain_length : ℕ
  pub cert_warn_days_val : ℤ
  pub cert_crit_days_val : ℤ
  pub degraded : Bool
  pub retries : ℕ
  pub labels : Map Str Str

is_icmp : CheckType → Bool
is_icmp icmp = true
is_icmp _ = false

abbrev positive_or : ℤ → ℤ → ℤ
positive_or v d = if ltb_ℤ (pos 0) v then v else d

module _ {F : Type 0} where
  -- `DegradedLatency`
  unfoldable pub degraded_latency : Result F → ℕ
  unfolding is_icmp
  degraded_latency r =
      if is_icmp r.typ && ltb 0 r.icmp_packets_recv then r.icmp_avg_rtt else r.duration

  -- `CertWarnDays`
  unfoldable pub cert_warn_days : Result F → ℤ
  cert_warn_days r = positive_or r.cert_warn_days_val (pos 30)

  -- `CertCriticalDays`
  unfoldable pub cert_critical_days : Result F → ℤ
  cert_critical_days r = positive_or r.cert_crit_days_val (pos 7)

  -- `DomainWarnDays`
  unfoldable pub domain_warn_days : Result F → ℤ
  domain_warn_days r = positive_or r.domain_warn_days_val (pos 30)

  -- `DomainCriticalDays`
  unfoldable pub domain_critical_days : Result F → ℤ
  domain_critical_days r = positive_or r.domain_crit_days_val (pos 7)

abbrev labels_of : Option Origin → Map Str Str
labels_of none = []
labels_of (some o) = metric_labels o

-- `NewResult`, at the instant `now`: every field that it does not set is Go's zero value
abbrev pub new_result : {F : Type 0} → F → Str → CheckType → Option Origin → ℕ → Result F
new_result zero_float name typ origin now = record {
  name = name;
  typ = typ;
  group = [];
  target = [];
  success = false;
  infra_error = false;
  duration = 0;
  error = [];
  timestamp = now;
  status_code = pos 0;
  dns_duration = 0;
  tls_duration = 0;
  conn_duration = 0;
  ttfb_duration = 0;
  transfer_duration = 0;
  response_bytes = 0;
  assertions = [];
  web_vitals = none;
  har_data = none;
  video_path = [];
  resource_count = 0;
  hops = [];
  tcp_conn_duration = 0;
  tcp_tls_duration = 0;
  dns_answers = [];
  dns_query_time = 0;
  icmp_packets_sent = 0;
  icmp_packets_recv = 0;
  icmp_packet_loss = zero_float;
  icmp_min_rtt = 0;
  icmp_avg_rtt = 0;
  icmp_max_rtt = 0;
  grpc_status = [];
  ntp_offset_ms = zero_float;
  ntp_stratum = 0;
  ntp_rtt = pos 0;
  udp_rtt = 0;
  udp_response_bytes = 0;
  ws_connect_duration = 0;
  ws_message_duration = 0;
  bgp_origin_asn = pos 0;
  bgp_prefix_visible = false;
  bgp_origin_match = false;
  bgp_rpki_status = [];
  domain_expiry_date = 0;
  domain_expiry_days = pos 0;
  domain_registrar = [];
  domain_registered = false;
  domain_warn_days_val = pos 0;
  domain_crit_days_val = pos 0;
  cert_subject = [];
  cert_issuer = [];
  cert_sans = [];
  cert_expiry = 0;
  cert_days_remaining = pos 0;
  cert_valid = false;
  cert_chain_length = 0;
  cert_warn_days_val = pos 0;
  cert_crit_days_val = pos 0;
  degraded = false;
  retries = 0;
  labels = labels_of origin;
}
