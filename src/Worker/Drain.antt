-- ===== src/Worker/Drain.antt =====
-- What the drain loop does to the store's rings, and to the budgets that were notified.
use technician.Common.{
  ℕ, ◌≡◌, refl, ◌∙◌, Bool, true, false, not, ◌&&◌, Option, none, some, List, [], ◌∷◌, map, arith,
  if-elim, nat_eq, Str, str_eq,
}
use technician.Common.Float.{Floats}
use technician.Common.Maps.{lookup_or, lookup_or-insert}
use technician.Check.{Result}
use technician.Status.Store.{Store, push, push_all, record_budget_check, budget_key}
use technician.Notify.Manager.{Manager, dispatch}
use technician.Notify.Handlers.{
  handle_result, handle_cert_result, handle_budget_violation, advance, advance_cert, advance_budget,
}
use technician.Budget.{Budget, CheckResult, evaluate_all}
use technician.Worker.{
  Worker, tell, tell_budget, drain_budget, drain_budgets, drain, drain_all, has_budgets,
}

module _ {F : Type 0} (fl : Floats F) (format_date : ℕ → Str) where
  drain_budgets-checks :
      (now : ℕ) (w : Worker F) (cs : List (CheckResult F))
      → (drain_budgets fl format_date now w cs).store.checks ≡ w.store.checks
  unfolding drain_budgets drain_budget record_budget_check
  drain_budgets-checks now w [] = refl
  drain_budgets-checks now w (c ∷ cs) =
      drain_budgets-checks now (drain_budget fl format_date now w c) cs

  drain-checks :
      (bs : List (Budget F)) (w : Worker F) (now : ℕ) (r : Result F)
      → (drain fl format_date bs w (now, r)).store.checks ≡ (push fl w.store r).checks
  unfolding drain
  drain-checks bs w now r =
      let w' : Worker F = record {
        store = push fl w.store r;
        notifier = tell fl format_date now r w.notifier;
      } in
      if-elim (λ (v : Worker F). v.store.checks ≡ (push fl w.store r).checks)
        (has_budgets bs && not r.infra_error)
        {x = drain_budgets fl format_date now w' (evaluate_all fl r bs)} {y = w'}
        (λ t. drain_budgets-checks now w' (evaluate_all fl r bs)) (λ f. refl)

  push_all-cong :
      (s t : Store F) (rs : List (Result F))
      → s.checks ≡ t.checks
      → (push_all fl s rs).checks ≡ (push_all fl t rs).checks
  unfolding push_all push
  push_all-cong s t [] e = e
  push_all-cong s t (r ∷ rs) e = push_all-cong (push fl s r) (push fl t r) rs (rw e)

  -- The rings after the loop are those of `Push` alone: neither the budgets nor the notifications
  -- touch them.
  pub drain_all-checks :
      (bs : List (Budget F)) (w : Worker F) (rs : List (ℕ × Result F))
      → (drain_all fl format_date bs w rs).store.checks
        ≡ (push_all fl w.store (map (λ e. e.1) rs)).checks
  unfolding drain_all push_all
  drain_all-checks bs w [] = refl
  drain_all-checks bs w ((now, r) ∷ rs) =
      drain_all-checks bs (drain fl format_date bs w (now, r)) rs
      ∙ push_all-cong (drain fl format_date bs w (now, r)).store (push fl w.store r)
          (map (λ e. e.1) rs) (drain-checks bs w now r)

-- The manager, if there is one, has told of the budget under a key.
abbrev pub Told : Str → Option Manager → Type 0
Told key none = Unit {0}
Told key (some m) = lookup_or key false m.budget_states ≡ true

-- What the manager sends when the budget is crossed once more.
abbrev pub sent_again : ℕ → Str → Str → Option Manager → List ℕ
sent_again now check metric none = []
sent_again now check metric (some m) = (handle_budget_violation now m check metric true).1

module _ {F : Type 0} (fl : Floats F) (format_date : ℕ → Str) where
  results_keep :
      (now : ℕ) (m : Manager) (r : Result F)
      → (handle_result now m r).0.budget_states ≡ m.budget_states
  unfolding handle_result advance dispatch
  results_keep now m r = ground arith

  certs_keep :
      (now : ℕ) (m : Manager) (r : Result F)
      → (handle_cert_result format_date now m r).0.budget_states ≡ m.budget_states
  unfolding handle_cert_result advance_cert dispatch
  certs_keep now m r = ground arith

  tell-Told :
      (key : Str) (now : ℕ) (r : Result F) (n : Option Manager)
      → Told key n
      → Told key (tell fl format_date now r n)
  unfolding tell
  tell-Told key now r none h = tt
  tell-Told key now r (some m) h =
      rw (certs_keep now (handle_result now m r).0 r, results_keep now m r) h

  budgets_set :
      (now : ℕ) (m : Manager) (check metric : Str) (v : Bool)
      → (handle_budget_violation now m check metric v).0.budget_states
        ≡ (advance_budget now m check metric v).0.budget_states
  unfolding handle_budget_violation dispatch
  budgets_set now m check metric v = ground arith

  tell_budget-Told :
      (key : Str) (now : ℕ) (check metric : Str) (n : Option Manager)
      → Told key n
      → Told key (tell_budget fl format_date now check metric n)
  unfolding tell_budget advance_budget
  tell_budget-Told key now check metric none h = tt
  tell_budget-Told key now check metric (some m) h =
      rw
        (
          budgets_set now m check metric true,
          lookup_or-insert (budget_key check metric) key false true m.budget_states,
        )
        (ground arith)

  drain_budgets-Told :
      (key : Str) (now : ℕ) (w : Worker F) (cs : List (CheckResult F))
      → Told key w.notifier
      → Told key (drain_budgets fl format_date now w cs).notifier
  unfolding drain_budgets drain_budget
  drain_budgets-Told key now w [] h = h
  drain_budgets-Told key now w (c ∷ cs) h =
      drain_budgets-Told key now (drain_budget fl format_date now w c) cs (
        if-elim (Told key) (record_budget_check w.store c.check c.metric c.violated).1
          (λ t. tell_budget-Told key now c.check c.metric w.notifier h) (λ f. h))

  drain-Told :
      (key : Str) (bs : List (Budget F)) (w : Worker F) (now : ℕ) (r : Result F)
      → Told key w.notifier
      → Told key (drain fl format_date bs w (now, r)).notifier
  unfolding drain
  drain-Told key bs w now r h =
      let w' : Worker F = record {
        store = push fl w.store r;
        notifier = tell fl format_date now r w.notifier;
      } in
      if-elim (λ (v : Worker F). Told key v.notifier) (has_budgets bs && not r.infra_error)
        {x = drain_budgets fl format_date now w' (evaluate_all fl r bs)} {y = w'}
        (λ t.
          drain_budgets-Told key now w' (evaluate_all fl r bs) (tell-Told key now r w.notifier h))
        (λ f. tell-Told key now r w.notifier h)

  drain_all-Told :
      (key : Str) (bs : List (Budget F)) (w : Worker F) (rs : List (ℕ × Result F))
      → Told key w.notifier
      → Told key (drain_all fl format_date bs w rs).notifier
  unfolding drain_all
  drain_all-Told key bs w [] h = h
  drain_all-Told key bs w ((now, r) ∷ rs) h =
      drain_all-Told key bs (drain fl format_date bs w (now, r)) rs (drain-Told key bs w now r h)

  sent_again-Told :
      (now : ℕ) (check metric : Str) (n : Option Manager)
      → Told (budget_key check metric) n
      → sent_again now check metric n ≡ []
  unfolding handle_budget_violation advance_budget
  sent_again-Told now check metric none h = refl
  sent_again-Told now check metric (some m) h = ground arith

  -- Once a budget has been told to the notifier, whatever results the loop drains afterwards, the
  -- next crossing of that budget sends nothing: the loop never tells that it was met again.
  pub drain_all-sent_again :
      (bs : List (Budget F)) (w : Worker F) (rs : List (ℕ × Result F)) (now : ℕ)
      (check metric : Str)
      → Told (budget_key check metric) w.notifier
      → sent_again now check metric (drain_all fl format_date bs w rs).notifier ≡ []
  drain_all-sent_again bs w rs now check metric h =
      sent_again-Told now check metric (drain_all fl format_date bs w rs).notifier
        (drain_all-Told (budget_key check metric) bs w rs h)
