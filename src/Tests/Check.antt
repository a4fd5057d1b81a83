-- ===== src/Tests/Check.antt =====
-- The properties of the checkers at concrete inputs.
use technician.Common.{
  ℕ, zero, suc, ◌≡◌, refl, inr, true, false, none, some, [], ◌∷◌, ◌++◌, arith, nat_eq, Str, str_eq,
}
use technician.Common.Int.{pos, int_eq}
use technician.Common.Float.{whole}
use technician.Common.Text.{codes, has_prefix}
use technician.Config.Types.{CheckConfig, BgpCheckConfig, HttpCheckConfig}
use technician.Config.Validate.{validate_assertions}
use technician.Check.Fetch.{reply, decoded, status_ok}
use technician.Check.Bgp.{RoutingStatus, Known, rpki_status, observe_more_specifics}
use technician.Check.Bgp
use technician.Check.Bgp.Verdict.{verdict, run-verdict}
use technician.Check.Bgp.Baseline.{observe_all, observe_more_specifics-latest}
use technician.Check.Bgp.Retries.{attempt, run_with_retry-attempt}
use technician.Check.Http.{Compiled, matcher, Answer, answered, Trace, status_error}
use technician.Check.Http
use technician.Check.Http.Assertions.{is_valid, outcomes}
use technician.Check.Http.Verdict.{responds, run-responds, run-reports}
use technician.Check.Icmp.{probe_count, Exchange, sent_at, echo, Sockets}
use technician.Check.Icmp
use technician.Check.Icmp.Bounds.{Figures, run-Figures}
use technician.Scheduler.Retry.{run_with_retry}
use technician.Tests.Data.{frankfurt, never, twice_linear, slow_check}

abbrev a_prefix : BgpCheckConfig
a_prefix = record { prefix = codes "192.0.2.0/23"; expected_origin = pos 64500 }

abbrev bgp_check : CheckConfig
bgp_check = record slow_check { bgp = some a_prefix }

-- The prefix and a half of it, both from the expected operator.
abbrev routes : RoutingStatus
routes = record {
  origins = pos 64500 ∷ [];
  more_specifics = record { prefix = codes "192.0.2.0/24"; origin = pos 64500 } ∷ [];
}

-- The check has seen no more specific prefix before.
abbrev known_none : Known
known_none = (slow_check.name, []) ∷ []

run-verdict_example :
    (Bgp.run {F = ℕ} 0 5 7
      (reply 200 (decoded routes))
      (reply 200 (decoded (codes "valid")))
      bgp_check
      (some frankfurt)
      known_none).1.success
    ≡ verdict slow_check.name known_none
        (some a_prefix)
        (some routes)
        (reply 200 (decoded (codes "valid")))
run-verdict_example =
    run-verdict 0 5 7 (reply 200 (decoded routes)) (reply 200 (decoded (codes "valid"))) bgp_check
      (some frankfurt) known_none

run_with_retry-attempt_example :
    (run_with_retry {F = ℕ}
      (attempt {F = ℕ} 0
        (λ k. k)
        (λ k. 7)
        (λ k. reply status_ok (decoded routes))
        (λ k. reply status_ok (decoded (codes "valid")))
        bgp_check
        (some frankfurt)
        known_none)
      never
      (some twice_linear)).0.success
    ≡ true
unfolding has_prefix rpki_status
run_with_retry-attempt_example =
    run_with_retry-attempt {F = ℕ} 0 (λ k. k) (λ k. 7) (λ k. reply status_ok (decoded routes))
      (λ k. reply status_ok (decoded (codes "valid"))) bgp_check (some frankfurt) known_none
      a_prefix routes (some twice_linear) never refl refl refl refl (omega arith) refl

observe_more_specifics-latest_example :
    (observe_more_specifics
      (observe_all [] ((codes "a", codes "p" ∷ []) ∷ (codes "b", codes "q" ∷ []) ∷ []))
      (codes "a")
      (codes "p" ∷ codes "q" ∷ [])).1
    ≡ codes "q" ∷ []
observe_more_specifics-latest_example =
    observe_more_specifics-latest ((codes "a", codes "p" ∷ []) ∷ (codes "b", codes "q" ∷ []) ∷ [])
      (codes "a") (codes "p" ∷ codes "q" ∷ [])

abbrev anything : Str → Compiled
anything pattern = matcher (λ text. true)

abbrev quoted : Str → Str
quoted s = b'"' ∷ s ++ b'"' ∷ []

abbrev an_http_check : HttpCheckConfig
an_http_check = record {
  url = codes "https://example.org";
  method = codes "GET";
  expected_status = pos 200;
  headers = (codes "Authorization", codes "mine") ∷ (codes "Accept", codes "text/html") ∷ [];
  body = [];
  skip_tls = false;
  follow_redirects = true;
  ip_version = [];
  min_tls = codes "1.2";
  max_tls = [];
  basic_auth = none;
  bearer_token = codes "token";
  proxy = [];
  assertions =
      record { typ = codes "contains"; header = []; target = codes "ok" }
      ∷ record { typ = codes "header_regex"; header = codes "Server"; target = codes "n.*" }
      ∷ [];
}

abbrev http_check : CheckConfig
http_check = record slow_check { http = some an_http_check }

abbrev no_trace : Trace
no_trace = record {
  dns_start = 0;
  dns_done = 0;
  connect_start = 0;
  connect_done = 0;
  tls_start = 0;
  tls_done = 0;
  got_first_byte = 9;
  req_start = 4;
  transfer_done = 12;
}

abbrev a_reply : Answer
a_reply = answered 200 (λ name. codes "nginx") (codes "all ok")

are_valid : validate_assertions (λ p. is_valid (anything p)) 0 an_http_check.assertions ≡ none
unfolding validate_assertions has_prefix
are_valid = refl

run-responds_example :
    (Http.run {F = ℕ} quoted anything 0 4 8 no_trace a_reply http_check (some frankfurt)).success
    ≡ responds anything (some an_http_check) a_reply
run-responds_example =
    run-responds 0 quoted anything 4 8 no_trace a_reply http_check (some frankfurt) an_http_check
      refl are_valid

run-reports_example :
    ((Http.run {F = ℕ} quoted anything 0 4 8 no_trace
        (answered 503 (λ name. []) (codes "no"))
        http_check
        (some frankfurt)).assertions
      ≡ outcomes quoted anything an_http_check.assertions (λ name. []) (codes "no"))
    × ((Http.run {F = ℕ} quoted anything 0 4 8 no_trace
          (answered 503 (λ name. []) (codes "no"))
          http_check
          (some frankfurt)).error
        ≡ status_error an_http_check 503)
run-reports_example =
    run-reports 0 quoted anything 4 8 no_trace 503 (λ name. []) (codes "no") http_check
      (some frankfurt) an_http_check refl

abbrev icmp_check : CheckConfig
icmp_check = record slow_check {
  icmp = some (record { host = codes "h"; count = pos 3; ip_version = [] });
}

abbrev open_sockets : Sockets
open_sockets = record { resolve = λ network host. inr false; listen = λ network address. none }

-- Every second probe is answered, after 100.
abbrev replies : ℕ → Exchange
replies zero = sent_at 10 (echo (pos 77) (pos 0) [] 110 ∷ [])
replies (suc k) = sent_at 10 (echo (pos 77) (pos 2) [] 130 ∷ [])

run-Figures_example :
    Figures 3
      (Icmp.run whole 0 5 400 open_sockets (pos 77) replies never icmp_check (some frankfurt))
unfolding probe_count
run-Figures_example =
    run-Figures whole 0 5 400 open_sockets (pos 77) replies never icmp_check (some frankfurt)
