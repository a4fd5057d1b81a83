-- ===== src/Check/Tls/Verdict.antt =====
-- When a run of the TLS checker succeeds.
use technician.Common.{
  ℕ, ◌≡◌, refl, ◌∙◌, Bool, true, false, not, ◌&&◌, ◌||◌, Option, none, some, List, [], ◌∷◌, ◌++◌,
  arith, ltb, leb, if◌then◌else◌, length, nat_eq, Str, str_eq,
}
use technician.Common.Int.{leb_ℤ}
use technician.Config.Origin.{Origin}
use technician.Config.Types.{CheckConfig, TlsCheckConfig}
use technician.Check.{Result}
use technician.Check.Days.{days_until}
use technician.Check.Tls.{
  Certificate, Network, host_and_name, validate_chain, chain_error, period_error, days_error,
  conclude, judge_certificate, with_leaf, inspect, connect, configured, run,
}

-- What a certificate and its chain have to be at an instant.
abbrev pub is_sound : TlsCheckConfig → ℕ → Bool → Certificate → Bool
is_sound c now valid leaf =
    valid
    && leb now leaf.not_after
    && leb leaf.not_before now
    && not (c.check_expiry && leb_ℤ (days_until now leaf.not_after) c.critical_days)

abbrev leaf_sound : Network → TlsCheckConfig → ℕ → List Certificate → Bool
leaf_sound n c now [] = false
leaf_sound n c now (leaf ∷ rest) =
    is_sound c now (validate_chain n (leaf ∷ rest) (host_and_name n c.host).1) leaf

-- The host is reached, shakes hands and presents a sound certificate.
abbrev pub is_reached : Option Str → Bool
is_reached none = true
is_reached (some e) = false

abbrev pub tls_verdict : Network → ℕ → Option TlsCheckConfig → Bool
tls_verdict n now none = false
tls_verdict n now (some c) =
    is_reached (n.dial (host_and_name n c.host).0)
    && is_reached (n.handshake (host_and_name n c.host).0)
    && leaf_sound n c now n.presented

-- The success over the three tests, each with the messages that it may give.
combine :
    (v expired early critical warn : Bool) (a b c d e : Str)
    → (if ltb 0 (
          length (
            (if v then [] else a ∷ [])
            ++ (if expired then b ∷ [] else if early then c ∷ [] else [])
            ++ (if critical then d ∷ [] else if warn then e ∷ [] else [])))
        then not (not v || expired || early || critical)
        else true)
      ≡ (v && not expired && not early && not critical)
combine false expired early critical warn a b c d e = ground arith
combine true true early critical warn a b c d e = ground arith
combine true false true critical warn a b c d e = ground arith
combine true false false true warn a b c d e = ground arith
combine true false false false true a b c d e = refl
combine true false false false false a b c d e = refl

within_period : (a b : ℕ) → not (ltb a b) ≡ leb b a
within_period a b = ground arith

module _ {F : Type 0} where
  conclude-success :
      (errors : List Str) (fatal : Bool) (r : Result F)
      → (conclude errors fatal r).success ≡ (if ltb 0 (length errors) then not fatal else true)
  unfolding conclude
  conclude-success [] fatal r = refl
  conclude-success (e ∷ es) fatal r = ground arith

  judge_certificate-success :
      (n : Network) (c : TlsCheckConfig) (now : ℕ) (leaf : Certificate) (r : Result F)
      → (judge_certificate n c now leaf r).success ≡ (
          r.cert_valid
          && not (ltb leaf.not_after now)
          && not (ltb now leaf.not_before)
          && not (c.check_expiry && leb_ℤ r.cert_days_remaining c.critical_days))
  unfolding judge_certificate chain_error period_error days_error
  judge_certificate-success n c now leaf r =
      conclude-success
        (chain_error r.cert_valid ++ period_error n now leaf ++ days_error c r.cert_days_remaining)
        _ r
      ∙ combine r.cert_valid (ltb leaf.not_after now) (ltb now leaf.not_before)
          (c.check_expiry && leb_ℤ r.cert_days_remaining c.critical_days)
          (c.check_expiry && leb_ℤ r.cert_days_remaining c.warn_days) _ _ _ _ _

  inspect-success :
      (n : Network) (c : TlsCheckConfig) (host : Str) (now : ℕ) (certs : List Certificate)
      (r : Result F)
      → r.success ≡ false
      → (inspect n c host (host_and_name n c.host).1 now certs r).success ≡ leaf_sound n c now certs
  unfolding inspect with_leaf
  inspect-success n c host now [] r e = e
  inspect-success n c host now (leaf ∷ rest) r e =
      rw (← within_period leaf.not_after now, ← within_period now leaf.not_before)
        (judge_certificate-success n c now leaf
          (with_leaf n c (host_and_name n c.host).1 now leaf rest r))

  connect-success :
      (n : Network) (c : TlsCheckConfig) (host : Str) (now elapsed : ℕ) (d h : Option Str)
      (r : Result F)
      → r.success ≡ false
      → (connect n c host (host_and_name n c.host).1 now elapsed d h r).success
        ≡ (is_reached d && is_reached h && leaf_sound n c now n.presented)
  unfolding connect
  connect-success n c host now elapsed (some x) h r e = e
  connect-success n c host now elapsed none (some x) r e = e
  connect-success n c host now elapsed none none r e =
      inspect-success n c host now n.presented (record r { duration = elapsed }) e

  configured-success :
      (t : Option TlsCheckConfig) (n : Network) (now elapsed : ℕ) (r : Result F)
      → r.success ≡ false
      → (configured t n now elapsed r).success ≡ tls_verdict n now t
  unfolding configured
  configured-success none n now elapsed r e = e
  configured-success (some c) n now elapsed r e =
      connect-success n c (host_and_name n c.host).0 now elapsed _ _ r e

-- A run of the TLS checker succeeds exactly when the host is reached and shakes hands, and presents a
-- certificate whose chain is valid for the host's name, inside its period, and, if the check looks at
-- the expiry, with more days left than the critical number: what is only below the number for warnings
-- succeeds.
pub run-tls_verdict :
    {F : Type 0} (zero_float : F) (begun now elapsed : ℕ) (n : Network) (cfg : CheckConfig)
    (origin : Option Origin)
    → (run zero_float begun now elapsed n cfg origin).success ≡ tls_verdict n now cfg.tls
unfolding run
run-tls_verdict zero_float begun now elapsed n cfg origin =
    configured-success cfg.tls n now elapsed _ refl
