-- ===== src/Config/Yaml.antt =====
-- internal/config/checks.go: `checkYAML`, the entry of a check in a file. The YAML parser, which
-- makes these values, is not modelled.
use technician.Common.{Bool, Option, List, nat_eq, Str, str_eq}
use technician.Common.Int.{ℤ}
use technician.Common.Maps.{Map}
use technician.Config.Kind.{CheckType}
use technician.Config.Types.{RetryPolicy, BasicAuth, Assertion}

pub record CheckYaml : Type 0 where
  pub name : Str
  pub typ : CheckType
  pub group : Str
  pub tags : List Str
  pub schedule : Str
  pub timeout : ℤ
  pub retry : Option RetryPolicy
  pub degraded_after : ℤ
  pub url : Str
  pub method : Str
  pub expected_status : ℤ
  pub headers : Map Str Str
  pub body : Str
  pub skip_tls : Bool
  pub follow_redirects : Bool
  pub basic_auth : Option BasicAuth
  pub bearer_token : Str
  pub proxy : Str
  pub assertions : List Assertion
  pub min_tls : Str
  pub max_tls : Str
  pub host : Str
  pub port : ℤ
  pub ip_version : Str
  pub send : Str
  pub expect_recv : Str
  pub tls : Bool
  pub start_tls : Bool
  pub username : Str
  pub password : Str
  pub domain : Str
  pub server : Str
  pub record_type : Str
  pub expected : List Str
  pub count : ℤ
  pub max_hops : ℤ
  pub service : Str
  pub check_expiry : Option Bool
  pub warn_days : ℤ
  pub critical_days : ℤ
  pub send_hex : Str
  pub expect_response : Option Bool
  pub max_response_bytes : ℤ
  pub prefix : Str
  pub expected_origin : ℤ
  pub script : Str
  pub authenticator : Str
  pub base_url : Str
  pub video : Bool
  pub network : Str
  pub device : Str
