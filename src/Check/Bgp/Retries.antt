-- ===== src/Check/Bgp/Retries.antt =====
-- What the scheduler's retries make of the BGP checker's findings.
use technician.Common.{
  ℕ, zero, suc, ◌≤◌, ◌<◌, ◌≡◌, refl, ◌∙◌, Bool, true, false, Option, some, arith, nat_eq, Str,
  str_eq,
}
use technician.Common.Int.{int_eq}
use technician.Config.Origin.{Origin}
use technician.Config.Types.{CheckConfig, BgpCheckConfig, RetryPolicy}
use technician.Scheduler.Retry.{run_with_retry}
use technician.Scheduler.Retry.Attempts.{limit, run_with_retry-success}
use technician.Check.{Result}
use technician.Check.Fetch.{Fetched, reply, decoded, status_ok}
use technician.Check.Bgp.{
  RoutingStatus, Known, observe_more_specifics, prefixes_of, run, configured, query,
}
use technician.Check.Bgp.Verdict.{expected_routes, run-verdict}
use technician.Check.Bgp.Baseline.{observed_twice}

known_after :
    {F : Type 0} (zero_float : F) (now elapsed : ℕ) (routing : Fetched RoutingStatus)
    (rpki : Fetched Str) (cfg : CheckConfig) (origin : Option Origin) (known : Known)
    (b : BgpCheckConfig) (info : RoutingStatus)
    → cfg.bgp ≡ some b
    → routing ≡ reply status_ok (decoded info)
    → (run zero_float now elapsed routing rpki cfg origin known).0
      ≡ (observe_more_specifics known cfg.name (prefixes_of info)).0
unfolding run configured query
known_after zero_float now elapsed routing rpki cfg origin known b info e a = rw (e, a) refl

only_one : (i : ℕ) → 0 < i → i ≤ 1 → i ≡ 1
only_one i above below = omega arith

module _ {F : Type 0} (zero_float : F) (now elapsed : ℕ → ℕ) (routing : ℕ → Fetched RoutingStatus)
    (rpki : ℕ → Fetched Str) (cfg : CheckConfig) (origin : Option Origin) (known : Known) where
  -- What the checker knows before attempt `k`, and what the attempt gives: attempt `k` meets the
  -- answers `routing k` and `rpki k`.
  abbrev pub known_before : ℕ → Known
  known_before zero = known
  known_before (suc k) =
      (run zero_float (now k) (elapsed k) (routing k) (rpki k) cfg origin (known_before k)).0

  abbrev pub attempt : ℕ → Result F
  attempt k =
      (run zero_float (now k) (elapsed k) (routing k) (rpki k) cfg origin (known_before k)).1

  second :
      (b : BgpCheckConfig) (info : RoutingStatus)
      → cfg.bgp ≡ some b
      → routing 0 ≡ reply status_ok (decoded info)
      → routing 1 ≡ reply status_ok (decoded info)
      → expected_routes b info (rpki 1) ≡ true
      → (attempt 1).success ≡ true
  second b info e a0 a1 ok =
      run-verdict zero_float (now 1) (elapsed 1) (routing 1) (rpki 1) cfg origin (known_before 1)
      ∙ rw
          (
            known_after zero_float (now 0) (elapsed 0) (routing 0) (rpki 0) cfg origin known b info
                e a0,
            e,
            a1,
            ok,
            observed_twice known cfg.name (prefixes_of info),
          )
          refl

  -- A check that may be retried reports no new more specific prefix: whatever the checker knew, if
  -- the first two queries get the same answer, its routes are those of the expected operator, RPKI
  -- does not object at the second, and the context lives through the first wait, then the scheduler
  -- gets a success.
  pub run_with_retry-attempt :
      (b : BgpCheckConfig) (info : RoutingStatus) (retry : Option RetryPolicy)
      (cancelled : ℕ → Bool)
      → cfg.bgp ≡ some b
      → routing 0 ≡ reply status_ok (decoded info)
      → routing 1 ≡ reply status_ok (decoded info)
      → expected_routes b info (rpki 1) ≡ true
      → 1 ≤ limit retry
      → cancelled 1 ≡ false
      → (run_with_retry attempt cancelled retry).0.success ≡ true
  run_with_retry-attempt b info retry cancelled e a0 a1 ok allowed alive =
      run_with_retry-success attempt cancelled retry 1 allowed (second b info e a0 a1 ok)
        (λ i above below. ground (arith, only_one i above below, alive))
