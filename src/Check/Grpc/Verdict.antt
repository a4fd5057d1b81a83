-- ===== src/Check/Grpc/Verdict.antt =====
-- When a run of the gRPC checker succeeds.
use technician.Common.{
  ℕ, ◌≡◌, refl, ◌∙◌, ◌⊎◌, inl, inr, Bool, false, Option, none, some, List, arith, nat_eq, Str,
  str_eq,
}
use technician.Common.Int.{ℤ}
use technician.Config.Origin.{Origin}
use technician.Config.Types.{CheckConfig, GrpcCheckConfig}
use technician.Check.{Result}
use technician.Check.Report.{or_default, half_minute}
use technician.Check.Grpc.{
  ConnKey, ServingStatus, is_serving, credentials_of, find_conn, keep_made, conn_or_made, get_conn,
  Health, answered, with_conn, key_of, configured, run,
}

-- The connection is asked for the service's health, and the answer is that it serves.
abbrev pub is_healthy : Str ⊎ ServingStatus → Bool
is_healthy (inl e) = false
is_healthy (inr s) = is_serving s

abbrev healthy_over : {C : Type 0} → Health C → ℤ → Str → Str ⊎ C → Bool
healthy_over h timeout service (inl e) = false
healthy_over h timeout service (inr conn) = is_healthy (h.check conn timeout service)

-- The connection that a run uses: the one that is kept for its key, or a new one.
abbrev pub conn_for : {C : Type 0} → Health C → ConnKey → List (ConnKey × C) → Str ⊎ C
conn_for h k conns = elim (find_conn k conns) [
  | some c ↦ inr c
  | none ↦ h.new_client k.host (credentials_of k.tls k.skip_tls)
]

abbrev pub grpc_verdict :
    {C : Type 0} → Health C → ℤ → List (ConnKey × C) → Option GrpcCheckConfig → Bool
grpc_verdict h timeout conns none = false
grpc_verdict h timeout conns (some c) =
    healthy_over h timeout c.service (conn_for h (key_of c) conns)

get_conn-conn :
    {C : Type 0} (h : Health C) (k : ConnKey) (conns : List (ConnKey × C))
    → (get_conn h.new_client k conns).1 ≡ conn_for h k conns
unfolding get_conn conn_or_made keep_made
get_conn-conn h k conns = ground arith

module _ {F : Type 0} {C : Type 0} where
  with_conn-success :
      (c : GrpcCheckConfig) (timeout : ℤ) (h : Health C) (made : Str ⊎ C) (r : Result F)
      → r.success ≡ false
      → (with_conn c timeout h made r).success ≡ healthy_over h timeout c.service made
  unfolding with_conn answered
  with_conn-success c timeout h made r e = ground arith

  configured-success :
      (o : Option GrpcCheckConfig) (timeout : ℤ) (h : Health C) (conns : List (ConnKey × C))
      (r : Result F)
      → r.success ≡ false
      → (configured o timeout h conns r).1.success ≡ grpc_verdict h timeout conns o
  unfolding configured
  configured-success none timeout h conns r e = e
  configured-success (some c) timeout h conns r e =
      with_conn-success c timeout h (get_conn h.new_client (key_of c) conns).1 r e
      ∙ rw (get_conn-conn h (key_of c) conns) refl

-- A run of the gRPC checker succeeds exactly when the check is configured, the connection that is kept
-- for its host and its use of TLS, or a new one if there is none, is there, and the service on it
-- answers that it is serving.
pub run-grpc_verdict :
    {F : Type 0} {C : Type 0} (zero_float : F) (now : ℕ) (h : Health C) (cfg : CheckConfig)
    (origin : Option Origin) (conns : List (ConnKey × C))
    → (run zero_float now h cfg origin conns).1.success
      ≡ grpc_verdict h (or_default half_minute cfg.timeout) conns cfg.grpc
unfolding run
run-grpc_verdict zero_float now h cfg origin conns =
    configured-success cfg.grpc (or_default half_minute cfg.timeout) h conns _ refl
