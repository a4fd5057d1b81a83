-- ===== src/Check/Http/Verdict.antt =====
-- When a run of the HTTP checker succeeds, and what it reports.
use technician.Common.{
  ℕ, ◌≡◌, refl, sym, ap, ◌∙◌, Bool, true, false, not, ◌&&◌, Option, none, some, List, [], arith,
  if◌then◌else◌, every, ◌==◌, nat_eq, Str, str_eq,
}
use technician.Common.Int.{pos, int_eq}
use technician.Config.Origin.{Origin}
use technician.Config.Types.{CheckConfig, HttpCheckConfig, Assertion}
use technician.Config.Validate.{validate_assertions, validate_assertions-testable, passes}
use technician.Check.{Result, AssertionResult}
use technician.Check.Http.{
  Compiled, Answer, no_request, no_reply, no_body, answered, Trace, complete, handle, configured,
  run, status_error,
}
use technician.Check.Http.Assertions.{
  is_valid, says, outcomes, first_failure, every_passed, known_type, testable-known_type,
  outcomes-says, evaluate_assertions-assertions, evaluate_assertions-success,
  evaluate_assertions-error,
}

report_step :
    (ok all : Bool) (first wrong : Str)
    → (if ok && not all then first else if ok then [] else wrong)
      ≡ (if not ok then wrong else if all then [] else first)
report_step ok all first wrong = ground arith

-- What a response has to be: with the expected status, and what each assertion says of it.
abbrev pub responds : (Str → Compiled) → Option HttpCheckConfig → Answer → Bool
responds compile (some c) (answered status header body) =
    (pos status == c.expected_status) && every (λ a. says compile a header body) c.assertions
responds compile _ _ = false

abbrev assertions_of : Option HttpCheckConfig → List Assertion
assertions_of none = []
assertions_of (some c) = c.assertions

module _ {F : Type 0} (zero_float : F) (quote : Str → Str) (compile : Str → Compiled) where
  complete-success :
      (c : HttpCheckConfig) (total : ℕ) (t : Trace) (status : ℕ) (header : Str → Str) (body : Str)
      (r : Result F)
      → (complete quote compile c total t status header body r).success ≡ (
          (pos status == c.expected_status)
          && every_passed (outcomes quote compile c.assertions header body))
  unfolding complete
  complete-success c total t status header body r =
      evaluate_assertions-success quote compile c.assertions header body _

  configured-success :
      (http : Option HttpCheckConfig) (total : ℕ) (t : Trace) (a : Answer) (r : Result F)
      → every known_type (assertions_of http) ≡ true
      → r.success ≡ false
      → (configured quote compile http total t a r).success ≡ responds compile http a
  unfolding configured handle
  configured-success none total t a r known e = e
  configured-success (some c) total t (no_request x) r known e = e
  configured-success (some c) total t (no_reply x) r known e = e
  configured-success (some c) total t (no_body x) r known e = e
  configured-success (some c) total t (answered status header body) r known e =
      complete-success c total t status header body r
      ∙ rw (outcomes-says quote compile c.assertions header body known) refl

  -- A run of a check whose assertions loading has accepted succeeds exactly when there is a response,
  -- read to its end, with the expected status, and what each of the assertions says of its headers or
  -- its body holds.
  pub run-responds :
      (now total : ℕ) (t : Trace) (a : Answer) (cfg : CheckConfig) (origin : Option Origin)
      (c : HttpCheckConfig)
      → cfg.http ≡ some c
      → validate_assertions (λ p. is_valid (compile p)) 0 c.assertions ≡ none
      → (run quote compile zero_float now total t a cfg origin).success
        ≡ responds compile (some c) a
  unfolding run
  run-responds now total t a cfg origin c e valid =
      let known : every known_type c.assertions ≡ true =
        testable-known_type (λ p. is_valid (compile p)) c.assertions
          (sym (validate_assertions-testable (λ p. is_valid (compile p)) 0 c.assertions)
            ∙ ap passes valid) in
      rw e (configured-success (some c) total t a _ known refl)

  -- For a response, a run keeps one result for each assertion, in order. Its error is that of the
  -- status if this is not the expected one, else the message of the first assertion that fails, and
  -- empty if none does.
  pub run-reports :
      (now total : ℕ) (t : Trace) (status : ℕ) (header : Str → Str) (body : Str) (cfg : CheckConfig)
      (origin : Option Origin) (c : HttpCheckConfig)
      → cfg.http ≡ some c
      → ((run quote compile zero_float now total t
            (answered status header body)
            cfg
            origin).assertions
          ≡ outcomes quote compile c.assertions header body)
        × ((run quote compile zero_float now total t (answered status header body) cfg origin).error
            ≡ (if not (pos status == c.expected_status)
                then status_error c status
                else if every
                    (λ (ar : AssertionResult). ar.passed)
                    (outcomes quote compile c.assertions header body)
                then []
                else first_failure quote compile (outcomes quote compile c.assertions header body)))
  unfolding run configured handle complete every_passed
  run-reports now total t status header body cfg origin c e = rw e (
    evaluate_assertions-assertions quote compile c.assertions header body _,
    evaluate_assertions-error quote compile c.assertions header body _
        ∙ report_step (pos status == c.expected_status) _ _ _,
  )
