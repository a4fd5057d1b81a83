-- ===== src/Status/Page/Groups.antt =====
-- What the page shows of groups and of domains.
use technician.Common.{
  ℕ, ◌+◌, ◌≡◌, refl, sym, ◌∙◌, Bool, List, [], ◌∷◌, map, arith, ltb, nat_beq, if◌then◌else◌, length,
  select, any, every, length-map, length-select-le, Str, ap, ◌==◌, nat_eq, str_eq,
}
use mathlib.Core.Path.{fun_ext}
use technician.Common.Grouping.{firsts, listed, group_all, no_groups, listed-group_all}
use technician.Status.Snapshot.{CheckStatus}
use technician.Status.Snapshot.Compute.{CheckState}
use technician.Status.Page.{
  GroupStatus, group_up, group_error, group_down, group_degraded, is_down, is_error, count_bad,
  group_status_of, domain_status_of, statuses, group_status, domain_status, domain_group,
  group_by_domain,
}

count_bad-any :
    (ss : List CheckStatus) (downs errors : ℕ)
    → ((count_bad ss downs errors).0 ≡ downs + length (select is_down ss))
      × ((count_bad ss downs errors).1 ≡ errors + length (select is_error ss))
unfolding count_bad
count_bad-any [] downs errors = omega arith
count_bad-any (s ∷ ss) downs errors = ground (
  arith,
  count_bad-any ss (if is_down s then downs + 1 else downs)
      (if is_error s then errors + 1 else errors),
)

any-select :
    (p : CheckStatus → Bool) (ss : List CheckStatus) → ltb 0 (length (select p ss)) ≡ any p ss
any-select p [] = refl
any-select p (s ∷ ss) = ground (arith, any-select p ss)

every-select :
    (p : CheckStatus → Bool) (ss : List CheckStatus)
    → nat_beq (length (select p ss)) (length ss) ≡ every p ss
every-select p [] = refl
every-select p (s ∷ ss) = ground (arith, every-select p ss, length-select-le p ss)

-- The worst of the checks: degraded if some are down and some are not.
abbrev pub worst : List CheckStatus → GroupStatus
worst ss =
    if any is_down ss
    then (if every is_down ss then group_down else group_degraded)
    else if any is_error ss
    then group_error
    else group_up

group_status_of-domain_status_of : (n : ℕ) (c : ℕ × ℕ) → group_status_of n c ≡ domain_status_of n c
unfolding group_status_of domain_status_of
group_status_of-domain_status_of n (downs, errors) = ground arith

domain_status_of-worst :
    (ss : List CheckStatus) (n : ℕ) (c : ℕ × ℕ)
    → n ≡ length ss
    → c.0 ≡ length (select is_down ss)
    → c.1 ≡ length (select is_error ss)
    → domain_status_of n c ≡ worst ss
unfolding domain_status_of
domain_status_of-worst ss n (downs, errors) h d e =
    ground (arith, any-select is_down ss, every-select is_down ss, any-select is_error ss)

-- What a check is shown under: its domain, or its name where it has none.
abbrev pub shown_under : Str → Str → Str
shown_under [] name = name
shown_under (b ∷ domain) name = b ∷ domain

domain_key-shown_under :
    (domain name : Str) → (if domain == [] then name else domain) ≡ shown_under domain name
domain_key-shown_under [] name = refl
domain_key-shown_under (b ∷ domain) name = refl

module _ {F : Type 0} where
  domain_status-worst : (cs : List (CheckState F)) → domain_status cs ≡ worst (statuses cs)
  unfolding domain_status
  domain_status-worst cs =
      let bad = count_bad-any (statuses cs) 0 0 in
      domain_status_of-worst (statuses cs) (length cs) (count_bad (statuses cs) 0 0)
        (sym (length-map cs (λ c. c.status))) (omega (arith, bad)) (omega (arith, bad))

  -- A group and a domain of the same checks show the same: down if all are, degraded if some are, else
  -- an error if there is one, and up if there is none.
  pub group_status-worst :
      (cs : List (CheckState F))
      → (group_status cs ≡ worst (statuses cs)) × (domain_status cs ≡ worst (statuses cs))
  unfolding group_status domain_status
  group_status-worst cs = (
    group_status_of-domain_status_of (length cs) (count_bad (statuses cs) 0 0)
        ∙ domain_status-worst cs,
    domain_status-worst cs,
  )

  -- Of the checks of one group, the page shows each domain once, where its first check stands, with its
  -- checks in order; a check without a domain goes by its name.
  pub group_by_domain-firsts :
      (cs : List (CheckState F))
      → group_by_domain cs
        ≡ map
            (λ k. domain_group k (select (λ c. shown_under c.domain c.name == k) cs))
            (firsts [] (map (λ c. shown_under c.domain c.name) cs))
  unfolding group_by_domain
  group_by_domain-firsts cs =
      ap (λ key. listed domain_group (group_all key cs no_groups))
        (fun_ext (λ c. domain_key-shown_under c.domain c.name))
      ∙ listed-group_all domain_group (λ c. shown_under c.domain c.name) cs
