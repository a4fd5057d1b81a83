-- ===== src/Check/Domain.antt =====
-- internal/check/domain_expiration.go: the domain expiry checker, of the answer of RDAP.
pub mod Verdict
use technician.Common.{
  ℕ, Bool, true, not, ◌||◌, Option, none, some, List, [], ◌∷◌, ◌++◌, ltb, nat_beq, if◌then◌else◌,
  ◌==◌, nat_eq, Str, str_eq,
}
use technician.Common.Int.{ℤ, pos, leb_ℤ}
use technician.Common.Text.{codes, itoa, join, joined}
use technician.Config.Kind.{domain_expiry}
use technician.Config.Origin.{Origin}
use technician.Config.Types.{CheckConfig, DomainExpirationCheckConfig}
use technician.Check.{Result, new_result}
use technician.Check.Days.{days_until}
use technician.Check.Fetch.{
  Fetched, no_request, no_reply, reply, undecodable, decoded, status_ok, status_not_found,
}

pub record PublicId : Type 0 where
  pub typ : Str
  pub identifier : Str

-- `rdapEntity`
pub record RdapEntity : Type 0 where
  pub roles : List Str
  pub handle : Str
  pub public_ids : List PublicId

-- `rdapEvent`
pub record RdapEvent : Type 0 where
  pub action : Str
  pub date : ℕ

-- The fields of `rdapDomain` that are read.
pub record RdapDomain : Type 0 where
  pub events : List RdapEvent
  pub entities : List RdapEntity

-- the innermost loop
registrar_id : List PublicId → Str → Str
registrar_id [] found = found
registrar_id (p ∷ ps) found =
    registrar_id ps (if p.typ == codes "IANA Registrar ID" then p.identifier else found)

registrar_of_roles : RdapEntity → List Str → Str → Str
unfolding registrar_id
registrar_of_roles e [] found = found
registrar_of_roles e (role ∷ roles) found = registrar_of_roles e roles (
    if role == codes "registrar"
    then registrar_id e.public_ids (if e.handle == [] then found else e.handle)
    else found)

-- the loops over the entities
registrar : List RdapEntity → Str → Str
unfolding registrar_of_roles
registrar [] found = found
registrar (e ∷ es) found = registrar es (registrar_of_roles e e.roles found)

-- the loop over the events
unfoldable pub expiry_date : List RdapEvent → ℕ → ℕ
expiry_date [] found = found
expiry_date (e ∷ es) found =
    expiry_date es (if e.action == codes "expiration" then e.date else found)

-- `errors`, of which there is one at most; `format_date` is `Format`
expiry_errors : (ℕ → Str) → DomainExpirationCheckConfig → ℕ → ℕ → ℤ → List Str
expiry_errors format_date c now expiry days =
    if ltb expiry now
    then joined (codes "domain expired on " ∷ format_date expiry ∷ []) ∷ []
    else if leb_ℤ days c.critical_days
    then joined (
        codes "domain expires in "
        ∷ itoa days
        ∷ codes " days (critical threshold: "
        ∷ itoa c.critical_days
        ∷ codes ")"
        ∷ [])
      ∷ []
    else if leb_ℤ days c.warn_days
    then joined (
        codes "domain expires in "
        ∷ itoa days
        ∷ codes " days (warn threshold: "
        ∷ itoa c.warn_days
        ∷ codes ")"
        ∷ [])
      ∷ []
    else []

module _ {F : Type 0} where
  -- the last test, on `errors` and on what makes the check fail
  conclude_domain : List Str → Bool → Result F → Result F
  conclude_domain [] fatal r = record r { success = true }
  conclude_domain (e ∷ es) fatal r = record r {
    error = join (codes "; ") (e ∷ es);
    success = not fatal;
  }

  evaluate_expiry : (ℕ → Str) → DomainExpirationCheckConfig → ℕ → ℕ → Result F → Result F
  unfolding expiry_errors conclude_domain
  evaluate_expiry format_date c now expiry r =
      if nat_beq expiry 0
      then record r { error = codes "no expiration date found for " ++ c.domain; success = true }
      else conclude_domain (expiry_errors format_date c now expiry (days_until now expiry))
          (ltb expiry now || leb_ℤ (days_until now expiry) c.critical_days)
          (record r { domain_expiry_date = expiry; domain_expiry_days = days_until now expiry })

  domain_infra : ℕ → Str → Result F → Result F
  domain_infra elapsed e r = record r { duration = elapsed; infra_error = true; error = e }

  -- the tests of the reply's status
  with_status : DomainExpirationCheckConfig → ℕ → ℕ → Result F → Result F → Result F
  unfolding domain_infra
  with_status c elapsed status r good =
      if nat_beq status status_not_found
      then record r {
        duration = elapsed;
        error = joined (codes "domain " ∷ c.domain ∷ codes " not found in RDAP" ∷ []);
      }
      else if nat_beq status status_ok
      then good
      else domain_infra elapsed (codes "RDAP returned HTTP " ++ itoa (pos status)) r

  answer :
      (ℕ → Str) → DomainExpirationCheckConfig → ℕ → ℕ → Fetched RdapDomain → Result F → Result F
  unfolding with_status evaluate_expiry registrar expiry_date
  answer format_date c now elapsed (no_request e) r =
      domain_infra elapsed (codes "building request: " ++ e) r
  answer format_date c now elapsed (no_reply e) r =
      domain_infra elapsed (codes "RDAP query failed: " ++ e) r
  answer format_date c now elapsed (reply status (undecodable e)) r =
      with_status c elapsed status r (domain_infra elapsed (codes "parsing RDAP response: " ++ e) r)
  answer format_date c now elapsed (reply status (decoded d)) r = with_status c elapsed status r (
      evaluate_expiry format_date c now (expiry_date d.events 0) (record r {
        duration = elapsed;
        domain_registered = true;
        domain_warn_days_val = c.warn_days;
        domain_crit_days_val = c.critical_days;
        domain_registrar = registrar d.entities r.domain_registrar;
      }))

  configured :
      Option DomainExpirationCheckConfig
      → (ℕ → Str)
      → ℕ
      → ℕ
      → Fetched RdapDomain
      → Result F
      → Result F
  unfolding answer
  configured none format_date now elapsed a r = record r {
    error = codes "missing domain expiration check configuration";
  }
  configured (some c) format_date now elapsed a r = answer format_date c now elapsed a r

  -- `Run`, begun at `begun` and with the thresholds evaluated at `now`
  unfoldable pub run :
      F → (ℕ → Str) → ℕ → ℕ → ℕ → Fetched RdapDomain → CheckConfig → Option Origin → Result F
  unfolding configured
  run zero_float format_date begun now elapsed a cfg origin =
      configured cfg.domain_expiry format_date now elapsed a
        (new_result zero_float cfg.name domain_expiry origin begun)
