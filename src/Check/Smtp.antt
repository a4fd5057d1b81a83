-- ===== src/Check/Smtp.antt =====
-- internal/check/smtp.go: the SMTP checker, of what the server answers.
pub mod Verdict
use technician.Common.{
  ℕ, Bool, not, Option, none, some, List, [], ◌∷◌, if◌then◌else◌, ◌==◌, nat_eq, Str, str_eq,
}
use technician.Common.Int.{ℤ}
use technician.Common.Text.{codes}
use technician.Config.Kind.{smtp}
use technician.Config.Origin.{Origin}
use technician.Config.Types.{CheckConfig, SmtpCheckConfig}
use technician.Check.{Result, new_result}
use technician.Check.Report.{host_port, or_default, half_minute, fails, succeeds}

-- The calls of net and net/smtp, each with its error or nothing: dialling with a timeout, the
-- greeting, EHLO with a name, the negotiation for a name with or without verification, and AUTH with
-- a user and a password; and whether the server advertises STARTTLS.
pub record Server : Type 0 where
  pub dial : ℤ → Str → Option Str
  pub greet : Str → Option Str
  pub hello : Str → Option Str
  pub advertises : Bool
  pub start_tls : Str → Bool → Option Str
  pub auth : Str → Str → Option Str
  pub elapsed : ℕ

-- The stages that a run goes through, each with the error that ends it.
unfoldable pub dial_stage : Server → ℤ → SmtpCheckConfig → Option (List Str)
dial_stage s timeout c = elim (s.dial timeout (host_port c.host c.port)) [
  | some e ↦ some (codes "connecting to " ∷ host_port c.host c.port ∷ codes ": " ∷ e ∷ [])
  | none ↦ none
]

unfoldable pub greet_stage : Server → SmtpCheckConfig → Option (List Str)
greet_stage s c = elim (s.greet c.host) [
  | some e ↦ some (codes "creating SMTP client: " ∷ e ∷ [])
  | none ↦ none
]

unfoldable pub hello_stage : Server → Option (List Str)
hello_stage s = elim (s.hello (codes "technician.local")) [
  | some e ↦ some (codes "EHLO failed: " ∷ e ∷ [])
  | none ↦ none
]

unfoldable pub tls_stage : Server → SmtpCheckConfig → Option (List Str)
tls_stage s c =
    if c.start_tls
    then if not s.advertises
      then some
          (codes "server " ∷ host_port c.host c.port ∷ codes " does not advertise STARTTLS" ∷ [])
      else elim (s.start_tls c.host c.skip_tls) [
        | some e ↦ some (
            codes "STARTTLS negotiation with "
            ∷ host_port c.host c.port
            ∷ codes " failed: "
            ∷ e
            ∷ [])
        | none ↦ none
      ]
    else none

unfoldable pub auth_stage : Server → SmtpCheckConfig → Option (List Str)
auth_stage s c =
    if not (c.username == [])
    then elim (s.auth c.username c.password) [
      | some e ↦
          some
            (codes "SMTP authentication to " ∷ host_port c.host c.port ∷ codes " failed: " ∷ e ∷ [])
      | none ↦ none
    ]
    else none

-- The first stage that fails ends the run.
abbrev or_else : Option (List Str) → Option (List Str) → Option (List Str)
or_else (some e) rest = some e
or_else none rest = rest

unfoldable pub stages : Server → ℤ → SmtpCheckConfig → Option (List Str)
unfolding dial_stage greet_stage hello_stage tls_stage auth_stage
stages s timeout c =
    or_else (dial_stage s timeout c) (
      or_else (greet_stage s c)
        (or_else (hello_stage s) (or_else (tls_stage s c) (auth_stage s c))))

module _ {F : Type 0} where
  conclude : Option (List Str) → ℕ → Result F → Result F
  conclude (some e) elapsed r = fails elapsed e r
  conclude none elapsed r = succeeds elapsed r

  configured : Option SmtpCheckConfig → ℤ → Server → Result F → Result F
  unfolding conclude stages
  configured none timeout s r = record r { error = codes "missing SMTP check configuration" }
  configured (some c) timeout s r = conclude (stages s timeout c) s.elapsed r

  -- `Run` at the instant `now`
  unfoldable pub run : F → ℕ → Server → CheckConfig → Option Origin → Result F
  unfolding configured
  run zero_float now s cfg origin =
      configured cfg.smtp (or_default half_minute cfg.timeout) s
        (new_result zero_float cfg.name smtp origin now)
