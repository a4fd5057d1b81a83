-- ===== src/Check/Dns/Verdict.antt =====
-- When a run of the DNS checker succeeds.
use technician.Common.{
  ℕ, ◌≡◌, refl, ◌∙◌, Bool, false, not, Option, none, some, List, [], ◌∷◌, arith, ltb, if-elim,
  length, any, every, ◌==◌, nat_eq, Str, str_eq,
}
use technician.Common.Text.{to_upper}
use technician.Config.Origin.{Origin}
use technician.Config.Types.{CheckConfig, DnsCheckConfig}
use technician.Check.{Result}
use technician.Check.Dns.{
  Looked, lookup_failed, found, Resolver, query_records, missing_of, check_expected, queried,
  configured, run,
}

-- The lookup answers, and every expected value is among the answers.
abbrev pub has_expected : List Str → Option (Looked (List Str)) → Bool
has_expected expected (some (found answers)) = every (λ e. any (λ a. a == e) answers) expected
has_expected expected _ = false

abbrev pub dns_verdict : Option DnsCheckConfig → (Str → Resolver) → Bool
unfolding query_records
dns_verdict none resolver = false
dns_verdict (some c) resolver =
    has_expected c.expected
      (query_records (resolver c.server) (to_upper c.record_type) c.server c.domain)

missing_of-every :
    (expected answers : List Str)
    → ltb 0 (length (missing_of expected answers))
      ≡ not (every (λ e. any (λ a. a == e) answers) expected)
unfolding missing_of
missing_of-every [] answers = refl
missing_of-every (e ∷ es) answers = ground (arith, missing_of-every es answers)

module _ {F : Type 0} where
  check_expected-success :
      (c : DnsCheckConfig) (answers : List Str) (r : Result F)
      → r.success ≡ false
      → (check_expected c answers r).success ≡ every (λ e. any (λ a. a == e) answers) c.expected
  unfolding check_expected
  check_expected-success c answers r f =
      if-elim (λ (s : Result F). s.success ≡ every (λ e. any (λ a. a == e) answers) c.expected)
        (ltb 0 (length (missing_of c.expected answers)))
        (λ t. f ∙ ground (arith, missing_of-every c.expected answers))
        (λ t. ground (arith, missing_of-every c.expected answers))

  queried-success :
      (c : DnsCheckConfig) (elapsed : ℕ) (o : Option (Looked (List Str))) (r : Result F)
      → r.success ≡ false
      → (queried c elapsed o r).success ≡ has_expected c.expected o
  unfolding queried
  queried-success c elapsed none r f = f
  queried-success c elapsed (some (lookup_failed e)) r f = f
  queried-success c elapsed (some (found answers)) r f =
      check_expected-success c answers (record r { duration = elapsed; dns_query_time = elapsed }) f

  configured-success :
      (d : Option DnsCheckConfig) (resolver : Str → Resolver) (elapsed : ℕ) (r : Result F)
      → r.success ≡ false
      → (configured d resolver elapsed r).success ≡ dns_verdict d resolver
  unfolding configured dns_verdict
  configured-success none resolver elapsed r f = f
  configured-success (some c) resolver elapsed r f = queried-success c elapsed _ r f

-- A run of the DNS checker succeeds exactly when the record type is a known one in any case of its
-- letters, the lookup answers, and every expected value is among the answers.
pub run-dns_verdict :
    {F : Type 0} (zero_float : F) (now elapsed : ℕ) (resolver : Str → Resolver) (cfg : CheckConfig)
    (origin : Option Origin)
    → (run zero_float now elapsed resolver cfg origin).success ≡ dns_verdict cfg.dns resolver
unfolding run
run-dns_verdict zero_float now elapsed resolver cfg origin =
    configured-success cfg.dns resolver elapsed _ refl
