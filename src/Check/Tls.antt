-- ===== src/Check/Tls.antt =====
-- internal/check/tls_cert.go: the TLS checker, of the certificates that a host presents.
pub mod Verdict
use technician.Common.{
  ℕ, Bool, true, false, not, ◌&&◌, ◌||◌, Option, none, some, List, [], ◌∷◌, ◌++◌, ltb,
  if◌then◌else◌, length, nat_eq, Str, str_eq,
}
use technician.Common.Int.{ℤ, leb_ℤ}
use technician.Common.Text.{codes, itoa, join, joined}
use technician.Config.Kind.{tls}
use technician.Config.Origin.{Origin}
use technician.Config.Types.{CheckConfig, TlsCheckConfig}
use technician.Check.{Result, new_result}
use technician.Check.Days.{days_until}

-- The fields of `x509.Certificate` that are read.
pub record Certificate : Type 0 where
  pub subject : Str
  pub issuer : Str
  pub dns_names : List Str
  pub not_before : ℕ
  pub not_after : ℕ

-- What the libraries give: `net.SplitHostPort` the host, `JoinHostPort`, whether the leaf's `Verify`
-- accepts the chain for a name, the error of the dialling and of the handshake, the certificates that
-- are presented, and `Format` of a date.
pub record Network : Type 0 where
  pub split_host_port : Str → Option Str
  pub join_host_port : Str → Str → Str
  pub verify : List Certificate → Str → Bool
  pub dial : Str → Option Str
  pub handshake : Str → Option Str
  pub presented : List Certificate
  pub format_date : ℕ → Str

-- `host` with its port, and `hostname`
unfoldable pub host_and_name : Network → Str → Str × Str
host_and_name n host = elim (n.split_host_port host) [
  | some name ↦ (host, name)
  | none ↦ (
    n.join_host_port host (codes "443"),
    elim (n.split_host_port (n.join_host_port host (codes "443"))) [ some name ↦ name | none ↦ [] ],
  )
]

-- `validateChain`
unfoldable pub validate_chain : Network → List Certificate → Str → Bool
validate_chain n [] name = false
validate_chain n (leaf ∷ rest) name = n.verify (leaf ∷ rest) name

-- The three tests behind `errors`, each with its message if it fails.
chain_error : Bool → List Str
chain_error valid = if valid then [] else codes "certificate chain validation failed" ∷ []

period_error : Network → ℕ → Certificate → List Str
period_error n now leaf =
    if ltb leaf.not_after now
    then joined (codes "certificate expired on " ∷ n.format_date leaf.not_after ∷ []) ∷ []
    else if ltb now leaf.not_before
    then joined (codes "certificate not valid until " ∷ n.format_date leaf.not_before ∷ []) ∷ []
    else []

days_error : TlsCheckConfig → ℤ → List Str
days_error c days =
    if c.check_expiry && leb_ℤ days c.critical_days
    then joined (
        codes "certificate expires in "
        ∷ itoa days
        ∷ codes " days (critical threshold: "
        ∷ itoa c.critical_days
        ∷ codes ")"
        ∷ [])
      ∷ []
    else if c.check_expiry && leb_ℤ days c.warn_days
    then joined (
        codes "certificate expires in "
        ∷ itoa days
        ∷ codes " days (warn threshold: "
        ∷ itoa c.warn_days
        ∷ codes ")"
        ∷ [])
      ∷ []
    else []

module _ {F : Type 0} where
  -- the last test, on `errors` and on what makes the check fail
  conclude : List Str → Bool → Result F → Result F
  conclude [] fatal r = record r { success = true }
  conclude (e ∷ es) fatal r = record r { error = join (codes "; ") (e ∷ es); success = not fatal }

  -- the verdict on the fields that are set
  judge_certificate : Network → TlsCheckConfig → ℕ → Certificate → Result F → Result F
  unfolding conclude chain_error period_error days_error
  judge_certificate n c now leaf r =
      conclude
        (chain_error r.cert_valid ++ period_error n now leaf ++ days_error c r.cert_days_remaining)
        (not r.cert_valid
          || ltb leaf.not_after now
          || ltb now leaf.not_before
          || (c.check_expiry && leb_ℤ r.cert_days_remaining c.critical_days))
        r

  -- the fields that are read from the certificates
  abbrev with_leaf :
      Network → TlsCheckConfig → Str → ℕ → Certificate → List Certificate → Result F → Result F
  unfolding validate_chain
  with_leaf n c name now leaf rest r = record r {
    cert_subject = leaf.subject;
    cert_issuer = leaf.issuer;
    cert_sans = leaf.dns_names;
    cert_expiry = leaf.not_after;
    cert_chain_length = length (leaf ∷ rest);
    cert_days_remaining = days_until now leaf.not_after;
    cert_warn_days_val = c.warn_days;
    cert_crit_days_val = c.critical_days;
    cert_valid = validate_chain n (leaf ∷ rest) name;
  }

  inspect : Network → TlsCheckConfig → Str → Str → ℕ → List Certificate → Result F → Result F
  unfolding judge_certificate with_leaf
  inspect n c host name now [] r = record r {
    error = codes "no certificates presented by " ++ host;
  }
  inspect n c host name now (leaf ∷ rest) r =
      judge_certificate n c now leaf (with_leaf n c name now leaf rest r)

  connect :
      Network → TlsCheckConfig → Str → Str → ℕ → ℕ → Option Str → Option Str → Result F → Result F
  unfolding inspect
  connect n c host name now elapsed (some e) h r = record r {
    duration = elapsed;
    error = joined (codes "connecting to " ∷ host ∷ codes ": " ∷ e ∷ []);
  }
  connect n c host name now elapsed none (some e) r = record r {
    duration = elapsed;
    error = joined (codes "TLS handshake with " ∷ host ∷ codes ": " ∷ e ∷ []);
  }
  connect n c host name now elapsed none none r =
      inspect n c host name now n.presented (record r { duration = elapsed })

  configured : Option TlsCheckConfig → Network → ℕ → ℕ → Result F → Result F
  unfolding connect
  configured none n now elapsed r = record r { error = codes "missing TLS check configuration" }
  configured (some c) n now elapsed r =
      let host = host_and_name n c.host in
      connect n c host.0 host.1 now elapsed (n.dial host.0) (n.handshake host.0) r

  -- `Run`, begun at `begun` and with the certificates inspected at `now`
  unfoldable pub run : F → ℕ → ℕ → ℕ → Network → CheckConfig → Option Origin → Result F
  unfolding configured
  run zero_float begun now elapsed n cfg origin =
      configured cfg.tls n now elapsed (new_result zero_float cfg.name tls origin begun)
