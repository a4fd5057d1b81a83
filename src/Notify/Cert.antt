-- ===== src/Notify/Cert.antt =====
-- The notifications of a certificate's expiry: one for each change of severity.
use technician.Common.{
  ℕ, ◌≡◌, refl, ◌∙◌, ◌↔◌, Bool, true, ◌&&◌, Option, none, some, List, [], ◌∷◌, arith, if◌then◌else◌,
  ◌==◌, nat_eq, Str, str_beq_iff, str_eq,
}
use technician.Common.Maps.{lookup_or, lookup_or-insert, lookup_or-delete}
use technician.Check.{Result}
use technician.Notify.Manager.{Event, Severity, unset, warning, critical, Manager, dispatch}
use technician.Notify.Handlers.{
  advance, handle_result, handle_budget_violation, cert_severity, has_cert, cert_key, advance_cert,
  handle_cert_result, same_severity,
}
use technician.Notify.Transitions.{Call, results, certs, budgets, call, run}

abbrev severity_at : Str → Manager → Severity
severity_at k m = lookup_or k unset m.cert_states

-- The severity of the certificate that was seen last under a key, `unset` for none or a healthy one.
abbrev pub last_severity : {F : Type 0} → Str → Severity → List (ℕ × Call F) → Severity
last_severity k s [] = s
last_severity k s ((now, certs r) ∷ cs) =
    last_severity k (if has_cert r && cert_key r == k then cert_severity r else s) cs
last_severity k s (c ∷ cs) = last_severity k s cs

same_severity_iff : (s t : Severity) → (same_severity s t ≡ true) ↔ (s ≡ t)
unfolding same_severity
same_severity_iff s t = ground arith

-- What there is to tell when the severity goes from the one to the other.
abbrev pub news : Severity → Severity → Option Severity
news old unset = none
news unset warning = some warning
news unset critical = some critical
news warning warning = none
news warning critical = some critical
news critical warning = some warning
news critical critical = none

-- The severity of the event, if one is raised.
abbrev pub told : Option Event → Option Severity
told none = none
told (some ev) = some ev.severity

budgets-certs :
    (m : Manager) (now : ℕ) (check metric : Str) (v : Bool)
    → (handle_budget_violation now m check metric v).0.cert_states ≡ m.cert_states
unfolding handle_budget_violation dispatch
budgets-certs m now check metric v = ground arith

module _ {F : Type 0} (format_date : ℕ → Str) where
  advance_cert-severity :
      (m : Manager) (r : Result F) (k : Str)
      → severity_at k (advance_cert format_date m r).0
        ≡ (if has_cert r && cert_key r == k then cert_severity r else severity_at k m)
  unfolding advance_cert same_severity
  advance_cert-severity m r k = ground (
    arith,
    lookup_or-insert (cert_key r) k unset (cert_severity r) m.cert_states,
    lookup_or-delete (cert_key r) k unset m.cert_states,
    str_beq_iff (cert_key r) k,
  )

  advance_cert-told :
      (m : Manager) (r : Result F)
      → told (advance_cert format_date m r).1
        ≡ (if has_cert r then news (severity_at (cert_key r) m) (cert_severity r) else none)
  unfolding advance_cert same_severity
  advance_cert-told m r = ground arith

  call-severity :
      (m : Manager) (now : ℕ) (r : Result F) (k : Str)
      → severity_at k (handle_cert_result format_date now m r).0
        ≡ severity_at k (advance_cert format_date m r).0
  unfolding handle_cert_result dispatch
  call-severity m now r k = ground arith

  call_results-certs :
      (m : Manager) (now : ℕ) (r : Result F) → (handle_result now m r).0.cert_states ≡ m.cert_states
  unfolding handle_result advance dispatch
  call_results-certs m now r = ground arith

  run-severity :
      (m : Manager) (cs : List (ℕ × Call F)) (k : Str)
      → severity_at k (run format_date m cs) ≡ last_severity k (severity_at k m) cs
  unfolding run call
  run-severity m [] k = refl
  run-severity m ((now, results r) ∷ cs) k =
      run-severity (handle_result now m r).0 cs k ∙ rw (call_results-certs m now r)
  run-severity m ((now, certs r) ∷ cs) k =
      run-severity (handle_cert_result format_date now m r).0 cs k
      ∙ rw (call-severity m now r k, advance_cert-severity m r k)
  run-severity m ((now, budgets check metric v) ∷ cs) k =
      run-severity (handle_budget_violation now m check metric v).0 cs k
      ∙ rw (budgets-certs m now check metric v)

  -- After any calls, a TLS result raises an event exactly when it tells of a certificate inside a
  -- window and the certificate that was seen last under its name was in another, or in none.
  pub advance_cert-news :
      (m : Manager) (cs : List (ℕ × Call F)) (r : Result F)
      → told (advance_cert format_date (run format_date m cs) r).1 ≡ (
          if has_cert r
          then news
              (last_severity (cert_key r) (lookup_or (cert_key r) unset m.cert_states) cs)
              (cert_severity r)
          else none)
  advance_cert-news m cs r =
      advance_cert-told (run format_date m cs) r ∙ rw (run-severity m cs (cert_key r))
