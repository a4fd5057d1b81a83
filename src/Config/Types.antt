-- ===== src/Config/Types.antt =====
-- internal/config/checks.go: a check's configuration, as the YAML gives it and as it is converted.
-- Durations are nanoseconds; `none` is a nil pointer.
use technician.Common.{ℕ, Bool, Option, List, nat_eq, Str, str_eq}
use technician.Common.Int.{ℤ}
use technician.Common.Maps.{Map}
use technician.Config.Kind.{CheckType}

-- The delay is not negative.
pub record RetryPolicy : Type 0 where
  pub count : ℤ
  pub backoff : Str
  pub delay : ℕ

pub record Assertion : Type 0 where
  pub typ : Str
  pub header : Str
  pub target : Str

pub record BasicAuth : Type 0 where
  pub username : Str
  pub password : Str

pub record HttpCheckConfig : Type 0 where
  pub url : Str
  pub method : Str
  pub expected_status : ℤ
  pub headers : Map Str Str
  pub body : Str
  pub skip_tls : Bool
  pub follow_redirects : Bool
  pub ip_version : Str
  pub min_tls : Str
  pub max_tls : Str
  pub basic_auth : Option BasicAuth
  pub bearer_token : Str
  pub proxy : Str
  pub assertions : List Assertion

pub record TcpCheckConfig : Type 0 where
  pub host : Str
  pub port : ℤ
  pub ip_version : Str
  pub tls : Bool
  pub min_tls : Str
  pub max_tls : Str
  pub send : Str
  pub expect_recv : Str

pub record DnsCheckConfig : Type 0 where
  pub domain : Str
  pub server : Str
  pub record_type : Str
  pub expected : List Str

pub record IcmpCheckConfig : Type 0 where
  pub host : Str
  pub count : ℤ
  pub ip_version : Str

pub record GrpcCheckConfig : Type 0 where
  pub host : Str
  pub service : Str
  pub tls : Bool
  pub skip_tls : Bool

pub record NtpCheckConfig : Type 0 where
  pub server : Str
  pub port : ℤ

pub record TlsCheckConfig : Type 0 where
  pub host : Str
  pub check_expiry : Bool
  pub warn_days : ℤ
  pub critical_days : ℤ

pub record UdpCheckConfig : Type 0 where
  pub host : Str
  pub port : ℤ
  pub ip_version : Str
  pub send : Str
  pub send_hex : Str
  pub expect_response : Option Bool
  pub expect_recv : Str
  pub max_response_bytes : ℤ

pub record BgpCheckConfig : Type 0 where
  pub prefix : Str
  pub expected_origin : ℤ

pub record DomainExpirationCheckConfig : Type 0 where
  pub domain : Str
  pub warn_days : ℤ
  pub critical_days : ℤ

pub record SmtpCheckConfig : Type 0 where
  pub host : Str
  pub port : ℤ
  pub timeout : ℤ
  pub start_tls : Bool
  pub skip_tls : Bool
  pub username : Str
  pub password : Str

pub record TracerouteCheckConfig : Type 0 where
  pub host : Str
  pub max_hops : ℤ
  pub count : ℤ

pub record WebSocketCheckConfig : Type 0 where
  pub url : Str
  pub send : Str
  pub expect_recv : Str
  pub skip_tls : Bool
  pub headers : Map Str Str

pub record PlaywrightCheckConfig : Type 0 where
  pub script : Str
  pub authenticator : Str
  pub base_url : Str
  pub video : Bool
  pub network : Str
  pub device : Str

pub record CheckConfig : Type 0 where
  pub name : Str
  pub typ : CheckType
  pub group : Str
  pub tags : List Str
  pub schedule : Str
  pub timeout : ℤ
  pub retry : Option RetryPolicy
  pub degraded_after : ℤ
  pub http : Option HttpCheckConfig
  pub smtp : Option SmtpCheckConfig
  pub traceroute : Option TracerouteCheckConfig
  pub playwright : Option PlaywrightCheckConfig
  pub tcp : Option TcpCheckConfig
  pub dns : Option DnsCheckConfig
  pub icmp : Option IcmpCheckConfig
  pub grpc : Option GrpcCheckConfig
  pub ntp : Option NtpCheckConfig
  pub tls : Option TlsCheckConfig
  pub udp : Option UdpCheckConfig
  pub bgp : Option BgpCheckConfig
  pub domain_expiry : Option DomainExpirationCheckConfig
  pub websocket : Option WebSocketCheckConfig

-- internal/config/config.go
pub record WebhookConfig : Type 0 where
  pub url : Str
  pub typ : Str
  pub events : List Str
  pub severities : List Str
  pub cooldown : ℤ
