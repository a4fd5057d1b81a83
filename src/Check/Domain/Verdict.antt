-- ===== src/Check/Domain/Verdict.antt =====
-- When a run of the domain expiry checker succeeds.
use technician.Common.{
  ℕ, ◌≡◌, refl, ◌∙◌, inl, inr, Bool, true, false, not, ◌&&◌, ◌||◌, Option, none, some, List, [],
  ◌∷◌, arith, ltb, nat_beq, if◌then◌else◌, Option-cases, if-elim, length, nat_eq, Str, str_eq,
}
use technician.Common.Int.{leb_ℤ}
use technician.Config.Origin.{Origin}
use technician.Config.Types.{CheckConfig, DomainExpirationCheckConfig}
use technician.Check.{Result}
use technician.Check.Days.{days_until}
use technician.Check.Fetch.{
  Fetched, no_request, no_reply, reply, undecodable, decoded, status_ok, status_not_found, body_of,
}
use technician.Check.Domain.{
  RdapDomain, expiry_date, expiry_errors, conclude_domain, evaluate_expiry, with_status,
  domain_infra, answer, configured, run,
}

-- The registration has no date, or one that is ahead with more days left than the critical number.
abbrev pub lasts : DomainExpirationCheckConfig → ℕ → ℕ → Bool
lasts c now expiry =
    nat_beq expiry 0
    || (not (ltb expiry now) && not (leb_ℤ (days_until now expiry) c.critical_days))

abbrev pub is_registered : DomainExpirationCheckConfig → ℕ → Option RdapDomain → Bool
unfolding expiry_date
is_registered c now none = false
is_registered c now (some d) = lasts c now (expiry_date d.events 0)

abbrev pub domain_verdict : Option DomainExpirationCheckConfig → ℕ → Fetched RdapDomain → Bool
unfolding is_registered
domain_verdict none now a = false
domain_verdict (some c) now a = is_registered c now (body_of a)

read_body :
    (c : DomainExpirationCheckConfig) (now : ℕ) (ok : Bool) (d : RdapDomain)
    → (if ok then lasts c now (expiry_date d.events 0) else false)
      ≡ is_registered c now (if ok then some d else none)
unfolding is_registered
read_body c now true d = refl
read_body c now false d = refl

combine_expiry :
    (expired critical warn : Bool) (a b c : Str)
    → (if ltb 0 (
          length
            (if expired then a ∷ [] else if critical then b ∷ [] else if warn then c ∷ [] else []))
        then not (expired || critical)
        else true)
      ≡ (not expired && not critical)
combine_expiry true critical warn a b c = ground arith
combine_expiry false true warn a b c = ground arith
combine_expiry false false true a b c = refl
combine_expiry false false false a b c = refl

module _ {F : Type 0} where
  conclude_domain-success :
      (errors : List Str) (fatal : Bool) (r : Result F)
      → (conclude_domain errors fatal r).success
        ≡ (if ltb 0 (length errors) then not fatal else true)
  unfolding conclude_domain
  conclude_domain-success [] fatal r = refl
  conclude_domain-success (e ∷ es) fatal r = ground arith

  evaluate_expiry-success :
      (format_date : ℕ → Str) (c : DomainExpirationCheckConfig) (now expiry : ℕ) (r : Result F)
      → (evaluate_expiry format_date c now expiry r).success ≡ lasts c now expiry
  unfolding evaluate_expiry expiry_errors
  evaluate_expiry-success format_date c now expiry r =
      if-elim (λ (s : Result F). s.success ≡ lasts c now expiry) (nat_beq expiry 0) (λ t. rw t refl)
        (λ t. rw t (
          conclude_domain-success (expiry_errors format_date c now expiry (days_until now expiry)) _
            _
          ∙ combine_expiry (ltb expiry now) (leb_ℤ (days_until now expiry) c.critical_days)
              (leb_ℤ (days_until now expiry) c.warn_days) _ _ _))

  with_status-success :
      (c : DomainExpirationCheckConfig) (elapsed status : ℕ) (r good : Result F) (v : Bool)
      → r.success ≡ false
      → good.success ≡ v
      → (with_status c elapsed status r good).success
        ≡ (if nat_beq status status_ok then v else false)
  unfolding with_status domain_infra
  with_status-success c elapsed status r good v e g =
      if-elim (λ (s : Result F). s.success ≡ (if nat_beq status status_ok then v else false))
        (nat_beq status status_not_found) (λ t. e ∙ ground arith)
        (λ t.
          if-elim (λ (s : Result F). s.success ≡ (if nat_beq status status_ok then v else false))
            (nat_beq status status_ok) (λ u. rw u g) (λ u. rw u e))

  answer-success :
      (format_date : ℕ → Str) (c : DomainExpirationCheckConfig) (now elapsed : ℕ)
      (a : Fetched RdapDomain) (r : Result F)
      → r.success ≡ false
      → (answer format_date c now elapsed a r).success ≡ is_registered c now (body_of a)
  unfolding answer is_registered domain_infra
  answer-success format_date c now elapsed (no_request e) r f = f
  answer-success format_date c now elapsed (no_reply e) r f = f
  answer-success format_date c now elapsed (reply status (undecodable e)) r f =
      with_status-success c elapsed status r _ false f f ∙ ground arith
  answer-success format_date c now elapsed (reply status (decoded d)) r f =
      with_status-success c elapsed status r _ (lasts c now (expiry_date d.events 0)) f
        (evaluate_expiry-success format_date c now (expiry_date d.events 0) _)
      ∙ read_body c now (nat_beq status status_ok) d

-- A run of the domain expiry checker succeeds exactly when RDAP answers with the status 200 and a body
-- that can be read, and the registration has no expiry date, or one that is ahead with more days left
-- than the critical number.
pub run-domain_verdict :
    {F : Type 0} (zero_float : F) (format_date : ℕ → Str) (begun now elapsed : ℕ)
    (a : Fetched RdapDomain) (cfg : CheckConfig) (origin : Option Origin)
    → (run zero_float format_date begun now elapsed a cfg origin).success
      ≡ domain_verdict cfg.domain_expiry now a
unfolding run configured
run-domain_verdict zero_float format_date begun now elapsed a cfg origin =
    elim (Option-cases cfg.domain_expiry) [
      | inl e ↦ rw e refl
      | inr (c, e) ↦ rw e (answer-success format_date c now elapsed a _ refl)
    ]
