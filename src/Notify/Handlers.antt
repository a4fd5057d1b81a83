-- ===== src/Notify/Handlers.antt =====
-- internal/notify/notify.go: `HandleResult`, `HandleBudgetViolation` and `HandleCertResult`. Each
-- decides on an event, which `dispatch` then offers to the webhooks. `now` is `time.Now()`.
use technician.Common.{
  ℕ, suc, ◌+◌, Bool, true, false, not, ◌&&◌, Option, none, some, List, [], ◌∷◌, ◌++◌, nat_beq,
  if◌then◌else◌, ◌==◌, nat_eq, Str, str_eq,
}
use technician.Common.Int.{ℤ, pos, negsuc, pos_part, ltb_ℤ, leb_ℤ}
use technician.Common.Maps.{Map, insert, delete, has_key, lookup_or}
use technician.Common.Text.{codes, decimal}
use technician.Config.Kind.{CheckType, other, tls}
use technician.Check.{Result, cert_warn_days, cert_critical_days}
use technician.Status.Store.{check_key, budget_key}
use technician.Notify.Manager.{
  Event, check_down, check_up, budget_violation, cert_expiring, Severity, unset, warning, critical,
  Manager, consecutive_fail_threshold, dispatch,
}

dispatch_if : ℕ → Manager × Option Event → Manager × List ℕ
dispatch_if now (m, none) = (m, [])
dispatch_if now (m, some ev) = dispatch now ev m

module _ {F : Type 0} where
  up_event : Result F → Event
  up_event r = record {
    typ = check_up;
    severity = unset;
    check = r.name;
    check_type = r.typ;
    message = codes "Check " ++ r.name ++ codes " is back up";
    details = [];
    timestamp = r.timestamp;
  }

  -- The details are set in the source's order; a map does not keep it.
  down_details : Result F → ℕ → Map Str Str
  down_details r count =
      (if r.error == [] then [] else (codes "error", r.error) ∷ [])
      ++ (if ltb_ℤ (pos 0) r.status_code
          then (codes "status_code", decimal (pos_part r.status_code)) ∷ []
          else [])
      ++ (codes "consecutive_failures", decimal count) ∷ []

  down_event : Result F → ℕ → Event
  unfolding down_details
  down_event r count = record {
    typ = check_down;
    severity = critical;
    check = r.name;
    check_type = r.typ;
    message =
        codes "Check "
        ++ r.name
        ++ codes " is down ("
        ++ decimal count
        ++ codes " consecutive failures)";
    details = down_details r count;
    timestamp = r.timestamp;
  }

  -- a success of a check that was seen before
  recover : Str → Manager → Result F → Manager × Option Event
  unfolding up_event
  recover key m r = (
    record m {
      fail_counts = insert key 0 m.fail_counts;
      notified_down = delete key m.notified_down;
    },
    if lookup_or key false m.notified_down then some (up_event r) else none,
  )

  -- a failure of a check that was seen before
  fail : Str → Manager → Result F → Manager × Option Event
  unfolding down_event
  fail key m r =
      let count = lookup_or key 0 m.fail_counts + 1 in
      let m' = record m { fail_counts = insert key count m.fail_counts } in
      if nat_beq count consecutive_fail_threshold && not (lookup_or key false m.notified_down)
      then (
        record m' { notified_down = insert key true m.notified_down },
        some (down_event r count),
      )
      else (m', none)

  -- `HandleResult` up to `dispatch`
  unfoldable pub advance : Manager → Result F → Manager × Option Event
  unfolding recover fail
  advance m r =
      let key = check_key r.typ r.name in
      let m' = record m { check_states = insert key r.success m.check_states } in
      if r.infra_error
      then (m, none)
      else if not (has_key key m.check_states)
      then (m', none)
      else if r.success
      then recover key m' r
      else fail key m' r

  -- `HandleResult`
  unfoldable pub handle_result : ℕ → Manager → Result F → Manager × List ℕ
  unfolding dispatch_if
  handle_result now m r = dispatch_if now (advance m r)

budget_event : ℕ → Str → Str → Event
budget_event now check metric = record {
  typ = budget_violation;
  severity = warning;
  check = check;
  check_type = other [];
  message =
      codes "Budget violation: " ++ check ++ codes " exceeds " ++ metric ++ codes " threshold";
  details = (codes "metric", metric) ∷ [];
  timestamp = now;
}

-- `HandleBudgetViolation` up to `dispatch`
unfoldable pub advance_budget : ℕ → Manager → Str → Str → Bool → Manager × Option Event
unfolding budget_event
advance_budget now m check metric violated =
    let key = budget_key check metric in
    (
      record m { budget_states = insert key violated m.budget_states },
      if violated && not (lookup_or key false m.budget_states)
          then some (budget_event now check metric)
          else none,
    )

-- `HandleBudgetViolation`
unfoldable pub handle_budget_violation : ℕ → Manager → Str → Str → Bool → Manager × List ℕ
unfolding advance_budget dispatch_if
handle_budget_violation now m check metric violated =
    dispatch_if now (advance_budget now m check metric violated)

is_tls : CheckType → Bool
is_tls tls = true
is_tls _ = false

unfoldable pub same_severity : Severity → Severity → Bool
same_severity unset unset = true
same_severity warning warning = true
same_severity critical critical = true
same_severity _ _ = false

-- `fmt.Sprintf("%d", n)` of a signed number
signed_decimal : ℤ → Str
signed_decimal (pos n) = decimal n
signed_decimal (negsuc n) = b'-' ∷ decimal (suc n)

-- `format_date` is `t.Format("2006-01-02")`.
module _ {F : Type 0} (format_date : ℕ → Str) where
  cert_event : Result F → Severity → Event
  unfolding signed_decimal
  cert_event r severity = record {
    typ = cert_expiring;
    severity = severity;
    check = r.name;
    check_type = r.typ;
    message =
        codes "TLS certificate for "
        ++ r.name
        ++ codes " expires in "
        ++ signed_decimal r.cert_days_remaining
        ++ codes " days";
    details =
        (codes "days_remaining", signed_decimal r.cert_days_remaining)
        ∷ (codes "expiry", format_date r.cert_expiry)
        ∷ (codes "subject", r.cert_subject)
        ∷ (if r.cert_valid then [] else (codes "chain_valid", codes "false") ∷ []);
    timestamp = r.timestamp;
  }

module _ {F : Type 0} where
  -- the severity of a certificate's days, `unset` for a healthy one
  unfoldable pub cert_severity : Result F → Severity
  cert_severity r =
      if leb_ℤ r.cert_days_remaining (cert_critical_days r)
      then critical
      else if leb_ℤ r.cert_days_remaining (cert_warn_days r)
      then warning
      else unset

  -- whether the result tells of a certificate: the two early returns
  unfoldable pub has_cert : Result F → Bool
  unfolding is_tls
  has_cert r =
      is_tls r.typ
      && not (
          leb_ℤ r.cert_days_remaining (pos 0)
          && leb_ℤ (pos 0) r.cert_days_remaining
          && not r.cert_valid)

  unfoldable pub cert_key : Result F → Str
  cert_key r = codes "cert:" ++ r.name

module _ {F : Type 0} (format_date : ℕ → Str) where
  -- a certificate inside a window, told at most once for each severity
  tell_cert : Severity → Manager → Result F → Manager × Option Event
  unfolding cert_event same_severity cert_key
  tell_cert unset m r = (record m { cert_states = delete (cert_key r) m.cert_states }, none)
  tell_cert severity m r =
      if same_severity (lookup_or (cert_key r) unset m.cert_states) severity then (m, none) else (
        record m { cert_states = insert (cert_key r) severity m.cert_states },
        some (cert_event format_date r severity),
      )

  -- `HandleCertResult` up to `dispatch`
  unfoldable pub advance_cert : Manager → Result F → Manager × Option Event
  unfolding has_cert cert_severity tell_cert
  advance_cert m r = if has_cert r then tell_cert (cert_severity r) m r else (m, none)

  -- `HandleCertResult`
  unfoldable pub handle_cert_result : ℕ → Manager → Result F → Manager × List ℕ
  unfolding advance_cert dispatch_if
  handle_cert_result now m r = dispatch_if now (advance_cert m r)
