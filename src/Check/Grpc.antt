-- ===== src/Check/Grpc.antt =====
-- internal/check/grpc.go: the gRPC checker with its cache of connections.
pub mod Connections
pub mod Verdict
use technician.Common.{
  ℕ, ◌⊎◌, inl, inr, Bool, true, false, not, ◌&&◌, Option, none, some, List, [], ◌∷◌, if◌then◌else◌,
  ◌==◌, nat_eq, Str, str_eq,
}
use technician.Common.Int.{ℤ}
use technician.Common.Text.{codes}
use technician.Config.Kind.{grpc}
use technician.Config.Origin.{Origin}
use technician.Config.Types.{CheckConfig, GrpcCheckConfig}
use technician.Check.{Result, new_result}
use technician.Check.Http.Requests.{bool_beq}
use technician.Check.Report.{or_default, half_minute, fails}

-- `grpcConnKey`
pub record ConnKey : Type 0 where
  pub host : Str
  pub tls : Bool
  pub skip_tls : Bool

-- The credentials that a client is made with: none, TLS that verifies nothing, or TLS.
pub data Credentials : Type 0 where
  insecure unverified verified : Credentials

-- `HealthCheckResponse.Status`
pub data ServingStatus : Type 0 where
  unknown serving not_serving service_unknown : ServingStatus

abbrev pub conn_key_beq : ConnKey → ConnKey → Bool
conn_key_beq j k = j.host == k.host && bool_beq j.tls k.tls && bool_beq j.skip_tls k.skip_tls

unfoldable pub credentials_of : Bool → Bool → Credentials
credentials_of use_tls skip_tls =
    if not use_tls then insecure else if skip_tls then unverified else verified

-- `C` is `*grpc.ClientConn`.
module _ {C : Type 0} where
  unfoldable pub find_conn : ConnKey → List (ConnKey × C) → Option C
  find_conn k [] = none
  find_conn k ((j, c) ∷ cs) = if conn_key_beq j k then some c else find_conn k cs

  keep_made : ConnKey → Str ⊎ C → List (ConnKey × C) → List (ConnKey × C)
  keep_made k (inl e) conns = conns
  keep_made k (inr c) conns = (k, c) ∷ conns

  conn_or_made : ConnKey → Option C → Str ⊎ C → List (ConnKey × C) → List (ConnKey × C) × (Str ⊎ C)
  unfolding keep_made
  conn_or_made k (some c) made conns = (conns, inr c)
  conn_or_made k none made conns = (keep_made k made conns, made)

  -- `getConn` on the map of connections; `new_client` is `grpc.NewClient` at this call, with its error
  -- on the left
  unfoldable pub get_conn :
      (Str → Credentials → Str ⊎ C) → ConnKey → List (ConnKey × C) → List (ConnKey × C) × (Str ⊎ C)
  unfolding find_conn conn_or_made credentials_of
  get_conn new_client k conns =
      conn_or_made k (find_conn k conns) (new_client k.host (credentials_of k.tls k.skip_tls)) conns

-- `HealthClient.Check` on a connection, with a timeout and a service: an error or a status.
pub record Health (C : Type 0) : Type 0 where
  pub new_client : Str → Credentials → Str ⊎ C
  pub check : C → ℤ → Str → Str ⊎ ServingStatus
  pub elapsed : ℕ

abbrev pub is_serving : ServingStatus → Bool
is_serving serving = true
is_serving _ = false

-- `Status.String()`
unfoldable pub status_text : ServingStatus → Str
status_text unknown = codes "UNKNOWN"
status_text serving = codes "SERVING"
status_text not_serving = codes "NOT_SERVING"
status_text service_unknown = codes "SERVICE_UNKNOWN"

abbrev pub key_of : GrpcCheckConfig → ConnKey
key_of c = record { host = c.host; tls = c.tls; skip_tls = c.skip_tls }

module _ {F : Type 0} {C : Type 0} where
  answered : GrpcCheckConfig → Health C → Str ⊎ ServingStatus → Result F → Result F
  unfolding status_text
  answered c h (inl e) r =
      fails h.elapsed (codes "gRPC health check on " ∷ c.host ∷ codes ": " ∷ e ∷ []) r
  answered c h (inr s) r = record r {
    duration = h.elapsed;
    grpc_status = status_text s;
    success = is_serving s;
  }

  with_conn : GrpcCheckConfig → ℤ → Health C → Str ⊎ C → Result F → Result F
  unfolding answered
  with_conn c timeout h (inl e) r =
      fails h.elapsed (codes "creating gRPC client for " ∷ c.host ∷ codes ": " ∷ e ∷ []) r
  with_conn c timeout h (inr conn) r = answered c h (h.check conn timeout c.service) r

  configured :
      Option GrpcCheckConfig
      → ℤ
      → Health C
      → List (ConnKey × C)
      → Result F
      → List (ConnKey × C) × Result F
  unfolding with_conn get_conn
  configured none timeout h conns r =
      (conns, record r { error = codes "missing gRPC check configuration" })
  configured (some c) timeout h conns r =
      let (conns', made) = get_conn h.new_client (key_of c) conns in
      (conns', with_conn c timeout h made r)

  -- `Run` at the instant `now`, on the checker's connections
  unfoldable pub run :
      F
      → ℕ
      → Health C
      → CheckConfig
      → Option Origin
      → List (ConnKey × C)
      → List (ConnKey × C) × Result F
  unfolding configured
  run zero_float now h cfg origin conns =
      configured cfg.grpc (or_default half_minute cfg.timeout) h conns
        (new_result zero_float cfg.name grpc origin now)
