-- ===== src/Check/Smtp/Verdict.antt =====
-- When a run of the SMTP checker succeeds.
use technician.Common.{
  ℕ, ◌≡◌, refl, ◌∙◌, Bool, false, not, ◌&&◌, ◌||◌, Option, none, some, List, [], arith, ◌==◌,
  nat_eq, Str, str_eq,
}
use technician.Common.Int.{ℤ}
use technician.Common.Text.{codes}
use technician.Config.Origin.{Origin}
use technician.Config.Types.{CheckConfig, SmtpCheckConfig}
use technician.Check.{Result}
use technician.Check.Report.{host_port, or_default, half_minute, is_done}
use technician.Check.Smtp.{
  dial_stage, greet_stage, hello_stage, tls_stage, auth_stage, stages, conclude, configured, run,
  Server,
}

-- What a configured run needs: a server that is reached, greets and takes EHLO, has TLS if it is
-- asked for, and takes the user if one is given.
abbrev pub serves : Server → ℤ → SmtpCheckConfig → Bool
serves s timeout c =
    is_done (s.dial timeout (host_port c.host c.port))
    && is_done (s.greet c.host)
    && is_done (s.hello (codes "technician.local"))
    && (not c.start_tls || (s.advertises && is_done (s.start_tls c.host c.skip_tls)))
    && (c.username == [] || is_done (s.auth c.username c.password))

abbrev pub smtp_verdict : Server → ℤ → Option SmtpCheckConfig → Bool
smtp_verdict s timeout none = false
smtp_verdict s timeout (some c) = serves s timeout c

stages-serves :
    (s : Server) (timeout : ℤ) (c : SmtpCheckConfig)
    → is_done (stages s timeout c) ≡ serves s timeout c
unfolding stages dial_stage greet_stage hello_stage tls_stage auth_stage
stages-serves s timeout c = ground arith

module _ {F : Type 0} where
  conclude-success :
      (o : Option (List Str)) (elapsed : ℕ) (r : Result F)
      → r.success ≡ false
      → (conclude o elapsed r).success ≡ is_done o
  unfolding conclude
  conclude-success none elapsed r e = refl
  conclude-success (some x) elapsed r e = e

  configured-success :
      (o : Option SmtpCheckConfig) (timeout : ℤ) (s : Server) (r : Result F)
      → r.success ≡ false
      → (configured o timeout s r).success ≡ smtp_verdict s timeout o
  unfolding configured
  configured-success none timeout s r e = e
  configured-success (some c) timeout s r e =
      conclude-success (stages s timeout c) s.elapsed r e ∙ stages-serves s timeout c

-- A run of the SMTP checker succeeds exactly when the check is configured, the server is reached,
-- greets and takes EHLO, advertises STARTTLS and negotiates it if the check asks for it, and takes the
-- user if the check names one.
pub run-smtp_verdict :
    {F : Type 0} (zero_float : F) (now : ℕ) (s : Server) (cfg : CheckConfig)
    (origin : Option Origin)
    → (run zero_float now s cfg origin).success
      ≡ smtp_verdict s (or_default half_minute cfg.timeout) cfg.smtp
unfolding run
run-smtp_verdict zero_float now s cfg origin =
    configured-success cfg.smtp (or_default half_minute cfg.timeout) s _ refl
