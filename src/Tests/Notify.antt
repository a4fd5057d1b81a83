-- ===== src/Tests/Notify.antt =====
-- The properties of the notifications, the budgets and the drain loop at concrete inputs.
use technician.Common.{ℕ, ◌≡◌, refl, true, false, some, [], ◌∷◌, arith, nat_eq, str_eq}
use technician.Common.Float.{whole}
use technician.Common.Maps.{lookup, lookup_or, has_key, insert}
use technician.Common.Text.{codes}
use technician.Config.Kind.{http, text}
use technician.Check.{cert_critical_days, cert_warn_days}
use technician.Status.Store.{check_key, budget_key}
use technician.Notify.Manager.{check_down, critical, dispatch, event_text, sends}
use technician.Notify.Handlers.{advance, advance_cert, cert_severity, has_cert, cert_key}
use technician.Notify.Transitions.{results, certs, run, raised, phase_of, fresh, advance-expected}
use technician.Notify.Sends.{elem}
use technician.Notify.Cooldown.{dispatch-spacing, dispatch_all}
use technician.Notify.Cert.{told, advance_cert-news}
use technician.Budget.{evaluate_all, extract_metrics}
use technician.Budget.Evaluation.{find_metric, evaluate_all-judged}
use technician.Worker.{Worker, drain_all}
use technician.Worker.Drain.{sent_again, drain_all-sent_again}
use technician.Notify.Delivery.{
  started, sending, sleeping, places, holds_place, acquire, failed, dispatched, advance as go_on,
  Reach, here, next,
}
use technician.Notify.Delivery.Bounded.{IsBounded, deliveries-IsBounded}
use technician.Tests.Data.{
  web, cert, empty, any_hook, new_manager_state, web_down, date_text, budgets,
}

fresh_web : phase_of (check_key http (codes "web")) new_manager_state ≡ fresh
unfolding lookup phase_of lookup_or has_key
fresh_web = refl

-- A success, and three failures with a TLS result in between: the third failure raises the event.
advance-expected_example :
    raised
      (advance
        (run date_text new_manager_state (
          (1, results (web true 1))
          ∷ (2, results (web false 2))
          ∷ (3, certs (cert 5 3))
          ∷ (4, results (web false 4))
          ∷ []))
        (web false 5)).1
    ≡ some check_down
unfolding check_key text
advance-expected_example =
    advance-expected date_text new_manager_state
      ((1, results (web true 1))
        ∷ (2, results (web false 2))
        ∷ (3, certs (cert 5 3))
        ∷ (4, results (web false 4))
        ∷ [])
      (web false 5) fresh_web refl

dispatch-spacing_example :
    elem 0
      (dispatch 900 web_down
        (dispatch_all (dispatch 100 web_down new_manager_state).0 ((500, web_down) ∷ []))).1
    ≡ false
unfolding dispatch sends lookup_or event_text
dispatch-spacing_example =
    dispatch-spacing new_manager_state 0 any_hook 100 900 web_down web_down ((500, web_down) ∷ [])
      refl refl refl refl (omega arith, tt) (omega arith)

-- The certificate was in the warning window, and is now in the critical one.
advance_cert-news_example :
    told
      (advance_cert date_text
        (run date_text new_manager_state ((1, certs (cert 20 1)) ∷ []))
        (cert 5 2)).1
    ≡ some critical
unfolding has_cert cert_severity cert_key cert_critical_days cert_warn_days
advance_cert-news_example =
    advance_cert-news date_text new_manager_state ((1, certs (cert 20 1)) ∷ []) (cert 5 2)

-- The check's own threshold is 300, and the run took 250.
evaluate_all-judged_example :
    find_metric (codes "duration") (evaluate_all whole (web true 1) budgets)
    ≡ some (record {
      check = codes "web";
      metric = codes "duration";
      threshold = 300;
      actual = 250;
      inherited = false;
      violated = false;
    })
unfolding extract_metrics lookup insert
evaluate_all-judged_example = evaluate_all-judged whole (web true 1) budgets (codes "duration")

abbrev worker : Worker ℕ
worker = record {
  store = empty;
  notifier = some (record new_manager_state { budget_states = (codes "web:duration", true) ∷ [] });
}

drain_all-sent_again_example :
    sent_again 9
      (codes "web")
      (codes "duration")
      (drain_all whole date_text budgets worker ((1, web true 1) ∷ (2, web false 2) ∷ [])).notifier
    ≡ []
unfolding budget_key lookup_or
drain_all-sent_again_example =
    drain_all-sent_again whole date_text budgets worker ((1, web true 1) ∷ (2, web false 2) ∷ []) 9
      (codes "web") (codes "duration") refl

-- An event goes to two webhooks, and the first send of the second fails.
two_sends : Reach [] (
    record (started web_down 0) { stage = sending; sends = 1 }
    ∷ record (started web_down 1) { stage = sleeping; sends = 1 }
    ∷ [])
unfolding places holds_place
two_sends =
    next
      (next
        (next (next here (dispatched web_down (0 ∷ 1 ∷ []))) (
          go_on [] (started web_down 1 ∷ []) (started web_down 0) _ refl
            (acquire refl (omega arith))))
        (go_on (record (started web_down 0) { stage = sending; sends = 1 } ∷ []) []
          (started web_down 1) _ refl (acquire refl (omega arith))))
      (go_on (record (started web_down 0) { stage = sending; sends = 1 } ∷ []) []
        (record (started web_down 1) { stage = sending; sends = 1 }) _ refl (failed refl))

deliveries-IsBounded_example : IsBounded (
    record (started web_down 0) { stage = sending; sends = 1 }
    ∷ record (started web_down 1) { stage = sleeping; sends = 1 }
    ∷ [])
deliveries-IsBounded_example = deliveries-IsBounded two_sends
