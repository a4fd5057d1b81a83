-- ===== src/Check/Http.antt =====
-- internal/check/http.go: the HTTP checker, of what net/http answers.
pub mod Requests
pub mod Verdict
pub mod Assertions
use technician.Common.{
  ℕ, ◌-◌, Bool, true, false, not, ◌&&◌, Option, none, some, List, [], ◌∷◌, ◌++◌, nat_beq,
  if◌then◌else◌, length, ◌==◌, nat_eq, Str, str_eq,
}
use technician.Common.Int.{pos, int_eq}
use technician.Common.Text.{codes, has_prefix, contains, itoa, joined}
use technician.Config.Kind.{http}
use technician.Config.Origin.{Origin}
use technician.Config.Types.{CheckConfig, HttpCheckConfig, Assertion}
use technician.Check.{Result, AssertionResult, new_result}

-- What `regexp.Compile` gives: an error's text, or whether a text matches.
pub data Compiled : Type 0 where
  invalid : Str → Compiled
  matcher : (Str → Bool) → Compiled

-- `quote` is `%q`, and `compile` is `regexp.Compile`, which the cache of `cachedCompile` only saves.
module _ (quote : Str → Str) (compile : Str → Compiled) where
  abbrev failed_with : Assertion → List Str → AssertionResult
  failed_with a message = record {
    typ = a.typ;
    target = a.target;
    passed = false;
    message = joined message;
  }

  abbrev held : Assertion → AssertionResult
  held a = record { typ = a.typ; target = a.target; passed = true; message = [] }

  match_regex : Assertion → Compiled → Str → List Str → AssertionResult
  match_regex a (invalid e) text message =
      failed_with a (codes "invalid regex " ∷ quote a.target ∷ codes ": " ∷ e ∷ [])
  match_regex a (matcher m) text message = if m text then held a else failed_with a message

  -- `evaluateHeaderAssertion`, with the header's value
  unfoldable pub evaluate_header_assertion : Assertion → Str → AssertionResult
  unfolding match_regex
  evaluate_header_assertion a value =
      let named = codes "header " ++ quote a.header in
      let got = joined (codes " (got " ∷ quote value ∷ codes ")" ∷ []) in
      if a.typ == codes "header_contains"
      then (if contains value a.target
          then held a
          else failed_with a (named ∷ codes " does not contain " ∷ quote a.target ∷ got ∷ []))
      else if a.typ == codes "header_not_contains"
      then (if contains value a.target
          then failed_with a (named ∷ codes " contains " ∷ quote a.target ∷ [])
          else held a)
      else if a.typ == codes "header_regex"
      then match_regex a (compile a.target) value
          (named ∷ codes " does not match regex " ∷ quote a.target ∷ got ∷ [])
      else failed_with a (codes "unknown header assertion type " ∷ quote a.typ ∷ [])

  -- `evaluateAssertion`
  unfoldable pub evaluate_assertion : Assertion → Str → AssertionResult
  unfolding match_regex
  evaluate_assertion a body =
      if a.typ == codes "contains"
      then (if contains body a.target
          then held a
          else failed_with a (codes "body does not contain " ∷ quote a.target ∷ []))
      else if a.typ == codes "not_contains"
      then (if contains body a.target
          then failed_with a (codes "body contains " ∷ quote a.target ∷ [])
          else held a)
      else if a.typ == codes "regex"
      then match_regex a (compile a.target) body
          (codes "body does not match regex " ∷ quote a.target ∷ [])
      else failed_with a (codes "unknown assertion type " ∷ quote a.typ ∷ [])

  -- the body of the loop over the assertions
  pub evaluate_assertion_at : Assertion → (Str → Str) → Str → AssertionResult
  unfolding evaluate_header_assertion evaluate_assertion
  evaluate_assertion_at a header body =
      if has_prefix a.typ (codes "header_")
      then evaluate_header_assertion a (header a.header)
      else evaluate_assertion a body

pub status_error : HttpCheckConfig → ℕ → Str
status_error c status =
    joined
      (codes "expected status " ∷ itoa c.expected_status ∷ codes ", got " ∷ itoa (pos status) ∷ [])

-- `NewRequest`, `client.Do` or the reading of the body fails, or there is a status, the value of each
-- header, and the body.
pub data Answer : Type 0 where
  no_request no_reply no_body : Str → Answer
  answered : ℕ → (Str → Str) → Str → Answer

-- The instants at which the hooks of the trace ran, 0 for never, and when the body was read.
pub record Trace : Type 0 where
  pub dns_start : ℕ
  pub dns_done : ℕ
  pub connect_start : ℕ
  pub connect_done : ℕ
  pub tls_start : ℕ
  pub tls_done : ℕ
  pub got_first_byte : ℕ
  pub req_start : ℕ
  pub transfer_done : ℕ

-- A phase that has begun and ended.
abbrev pub phase : ℕ → ℕ → ℕ
phase start stop = if not (nat_beq start 0) && not (nat_beq stop 0) then stop - start else 0

module _ {F : Type 0} where
  record_assertion : AssertionResult → Result F → Result F
  record_assertion ar r =
      if not ar.passed && r.success
      then record r {
        assertions = r.assertions ++ ar ∷ [];
        success = false;
        error = codes "assertion failed: " ++ ar.message;
      }
      else record r { assertions = r.assertions ++ ar ∷ [] }

module _ {F : Type 0} (quote : Str → Str) (compile : Str → Compiled) where
  unfoldable pub evaluate_assertions : List Assertion → (Str → Str) → Str → Result F → Result F
  unfolding evaluate_assertion_at record_assertion
  evaluate_assertions [] header body r = r
  evaluate_assertions (a ∷ rest) header body r =
      evaluate_assertions rest header body
        (record_assertion (evaluate_assertion_at quote compile a header body) r)

  -- `Run` after the reply
  unfoldable pub complete :
      HttpCheckConfig → ℕ → Trace → ℕ → (Str → Str) → Str → Result F → Result F
  unfolding evaluate_assertions status_error
  complete c total t status header body result =
      evaluate_assertions c.assertions header body (record result {
        status_code = pos status;
        response_bytes = length body;
        duration = total;
        dns_duration = phase t.dns_start t.dns_done;
        conn_duration = phase t.connect_start t.connect_done;
        tls_duration = phase t.tls_start t.tls_done;
        ttfb_duration = if nat_beq t.got_first_byte 0 then 0 else t.got_first_byte - t.req_start;
        transfer_duration =
            if nat_beq t.got_first_byte 0 then 0 else t.transfer_done - t.got_first_byte;
        success = pos status == c.expected_status;
        error = if pos status == c.expected_status then result.error else status_error c status;
      })

  handle : HttpCheckConfig → ℕ → Trace → Answer → Result F → Result F
  unfolding complete
  handle c total t (no_request e) r = record r { error = codes "creating request: " ++ e }
  handle c total t (no_reply e) r = record r {
    duration = total;
    error = codes "request failed: " ++ e;
  }
  handle c total t (no_body e) r = record r {
    duration = total;
    error = codes "reading response body: " ++ e;
  }
  handle c total t (answered status header body) r = complete c total t status header body r

  configured : Option HttpCheckConfig → ℕ → Trace → Answer → Result F → Result F
  unfolding handle
  configured none total t a r = record r { error = codes "missing HTTP check configuration" }
  configured (some c) total t a r = handle c total t a r

  -- `Run` at the instant `now`, with the answer, the time that it takes and the trace
  unfoldable pub run : F → ℕ → ℕ → Trace → Answer → CheckConfig → Option Origin → Result F
  unfolding configured
  run zero_float now total t a cfg origin =
      configured cfg.http total t a (new_result zero_float cfg.name http origin now)
