-- ===== src/Worker.antt =====
-- cmd/worker.go: the loop that drains the scheduler's results into the store, the budgets and the
-- notifications, the loop that persists the store, and the answer of `/health`. The metrics, traces
-- and log lines that they also write are not modelled.
pub mod Drain
pub mod Persisting
use technician.Common.{
  ◌++◌, ℕ, Bool, true, false, not, ◌&&◌, Option, none, some, List, [], ◌∷◌, if◌then◌else◌, nat_eq,
  Str, str_eq,
}
use technician.Common.Float.{Floats}
use technician.Check.{Result}
use technician.Common.Text.{codes, decimal}
use technician.Status.Store.{Store, push, record_budget_check, write_healthy}
use technician.Status.Persistence.{PersistedStore}
use technician.Status.Persistence.Files.{Os, Json, save_counted, save_backup}
use technician.Status.Page.Serve.{Response}
use technician.Notify.Manager.{Manager}
use technician.Notify.Handlers.{handle_result, handle_cert_result, handle_budget_violation}
use technician.Budget.{Budget, CheckResult, evaluate_all}

-- `store` and `notifier`, which is nil when no webhook is configured
pub record Worker (F : Type 0) : Type 0 where
  pub store : Store F
  pub notifier : Option Manager

module _ {F : Type 0} where
  unfoldable pub has_budgets : List (Budget F) → Bool
  has_budgets [] = false
  has_budgets (b ∷ bs) = true

module _ {F : Type 0} (fl : Floats F) (format_date : ℕ → Str) where
  -- a result told to the notifier: every method of a nil one returns at once
  unfoldable pub tell : ℕ → Result F → Option Manager → Option Manager
  tell now r none = none
  tell now r (some m) = some (handle_cert_result format_date now (handle_result now m r).0 r).0

  -- a crossed budget told to the notifier
  unfoldable pub tell_budget : ℕ → Str → Str → Option Manager → Option Manager
  tell_budget now check metric none = none
  tell_budget now check metric (some m) = some (handle_budget_violation now m check metric true).0

  -- one round of the loop over `budget.EvaluateAll`
  unfoldable pub drain_budget : ℕ → Worker F → CheckResult F → Worker F
  unfolding tell_budget
  drain_budget now w c =
      let (s, crossed) = record_budget_check w.store c.check c.metric c.violated in
      record w {
        store = s;
        notifier = if crossed then tell_budget now c.check c.metric w.notifier else w.notifier;
      }

  unfoldable pub drain_budgets : ℕ → Worker F → List (CheckResult F) → Worker F
  unfolding drain_budget
  drain_budgets now w [] = w
  drain_budgets now w (c ∷ cs) = drain_budgets now (drain_budget now w c) cs

  -- the body of `for result := range sched.Results()`, at the instant `now`
  unfoldable pub drain : List (Budget F) → Worker F → ℕ × Result F → Worker F
  unfolding tell drain_budgets has_budgets
  drain bs w (now, r) =
      let w' = record w { store = push fl w.store r; notifier = tell now r w.notifier } in
      if has_budgets bs && not r.infra_error
      then drain_budgets now w' (evaluate_all fl r bs)
      else w'

  -- the whole loop
  unfoldable pub drain_all : List (Budget F) → Worker F → List (ℕ × Result F) → Worker F
  unfolding drain
  drain_all bs w [] = w
  drain_all bs w (r ∷ rs) = drain_all bs (drain bs w r) rs

-- `/health`
module _ {F : Type 0} where
  unfoldable pub health : Store F → Response
  health s =
      let headers = (codes "Content-Type", codes "text/plain; charset=utf-8") ∷ [] in
      if not (write_healthy s)
      then record {
        status = 503;
        headers = headers;
        body =
            codes "status store writes failing: "
            ++ decimal s.consecutive_write_fail
            ++ codes " consecutive failures\n";
      }
      else record { status = 200; headers = headers; body = codes "ok" }

-- A tick of one of the two tickers, at an instant.
pub data Tick : Type 0 where
  save_tick : Tick
  backup_tick : ℕ → Tick

module _ {D B F : Type 0} (os : Os D B) (json : Json (PersistedStore F) B) (path : Str) where
  -- a round of the loop that persists the store
  unfoldable pub on_tick : Tick → Store F × D → Store F × D
  on_tick save_tick (s, d) = let (s', d', e) = save_counted os json path s d in (s', d')
  on_tick (backup_tick now) (s, d) = (s, save_backup os path now d)

  unfoldable pub on_ticks : List Tick → Store F × D → Store F × D
  unfolding on_tick
  on_ticks [] sd = sd
  on_ticks (t ∷ ts) sd = on_ticks ts (on_tick t sd)
