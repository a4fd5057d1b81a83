-- ===== src/Status/Store.antt =====
-- internal/status/store.go: `Store`, its updates and its write health. The locks make each method
-- one step, so a method is a function of the state.
pub mod History
pub mod Down
pub mod Streaks
pub mod Keys
use technician.Common.{
  ℕ, ◌+◌, Bool, true, false, ◌||◌, Option, none, some, List, [], ◌∷◌, ◌++◌, map, ltb, nat_beq,
  if◌then◌else◌, take, select, any, ◌==◌, nat_eq, Str, str_eq,
}
use technician.Common.Float.{Floats}
use technician.Common.Maps.{Map, lookup, insert, delete, has_key, lookup_or}
use technician.Common.Text.{last_index}
use technician.Config.Kind.{CheckType, text}
use technician.Check.{Result}
use technician.Status.Ring.{Entry, Ring}
use technician.Status.Ring

abbrev pub budget_fail_threshold : ℕ
budget_fail_threshold = 3

abbrev pub write_failure_threshold : ℕ
write_failure_threshold = 5

pub record BudgetState : Type 0 where
  pub violated : Bool
  pub consecutive_violations : ℕ

-- The zero value, which a missing key reads as.
abbrev pub no_budget_state : BudgetState
no_budget_state = record { violated = false; consecutive_violations = 0 }

-- The service, the origin, the path and the locks are left out.
pub record Store (F : Type 0) : Type 0 where
  pub checks : Map Str (Ring F)
  pub order : List Str
  pub budget_checks : Map Str BudgetState
  pub consecutive_write_fail : ℕ
  -- `snapCache != nil`
  pub cached : Bool
  -- the results handed to the optional `Recorder`, or `none` if none is attached
  pub history : Option (List (Result F))

-- `checkKey`
unfoldable pub check_key : CheckType → Str → Str
check_key typ name = text typ ++ b':' ∷ name

-- `budgetKeyCheck`
unfoldable pub budget_key_check : Str → Option Str
budget_key_check key = elim (last_index b':' key) [ none ↦ none | some i ↦ some (take i key) ]

-- `check + ":" + metric`
unfoldable pub budget_key : Str → Str → Str
budget_key check metric = check ++ b':' ∷ metric

-- A configured check, as `Reconcile` reads it.
pub record Active : Type 0 where
  pub typ : CheckType
  pub name : Str

-- `downSince`, with 0 for Go's zero time
unfoldable pub track_down : Bool → Bool → ℕ → ℕ → ℕ
track_down success infra_error now since =
    if success || infra_error then 0 else if nat_beq since 0 then now else since

module _ {F : Type 0} where
  unfoldable pub empty_store : Store F
  empty_store = record {
    checks = [];
    order = [];
    budget_checks = [];
    consecutive_write_fail = 0;
    cached = false;
    history = none;
  }

  -- the literal `&checkRing{…}`
  fresh_ring : Result F → Ring F
  fresh_ring r = record {
    name = r.name;
    typ = r.typ;
    group = r.group;
    target = r.target;
    entries = [];
    head = 0;
    full = false;
    down_since = 0;
  }

  -- the ring of the key, made when there is none, with the group and target of this result
  ring_for : Option (Ring F) → Result F → Ring F
  unfolding fresh_ring
  ring_for none r = fresh_ring r
  ring_for (some g) r = record g {
    group = if r.group == [] then g.group else r.group;
    target = if r.target == [] then g.target else r.target;
  }

  record_history : Option (List (Result F)) → Result F → Option (List (Result F))
  record_history none r = none
  record_history (some rs) r = some (rs ++ r ∷ [])

module _ {F : Type 0} (fl : Floats F) where
  -- `float64(d) / float64(time.Millisecond)`
  abbrev milliseconds : ℕ → F
  milliseconds d = fl.div (fl.of_ℕ d) (fl.of_ℕ 1000000)

  unfoldable pub entry_of : Result F → Entry F
  entry_of r = record {
    success = r.success;
    infra_error = r.infra_error;
    duration_ms = milliseconds r.duration;
    timestamp = r.timestamp;
    error = r.error;
    status_code = r.status_code;
    dns_ms = milliseconds r.dns_duration;
    tls_ms = milliseconds r.tls_duration;
    ttfb_ms = milliseconds r.ttfb_duration;
    ntp_offset_ms = r.ntp_offset_ms;
    cert_days_remaining = r.cert_days_remaining;
    cert_valid = r.cert_valid;
    cert_expiry = r.cert_expiry;
    icmp_packet_loss = r.icmp_packet_loss;
    grpc_status = r.grpc_status;
  }

  -- the ring after the result: metadata, `downSince`, then the entry
  unfoldable pub updated_ring : Option (Ring F) → Result F → Ring F
  unfolding ring_for track_down entry_of Ring.push
  updated_ring old r =
      let g = ring_for old r in
      Ring.push
        (record g { down_since = track_down r.success r.infra_error r.timestamp g.down_since })
        (entry_of r)

  -- `Push`
  unfoldable pub push : Store F → Result F → Store F
  unfolding updated_ring record_history
  push s r =
      let key = check_key r.typ r.name in
      record s {
        history = record_history s.history r;
        checks = insert key (updated_ring (lookup key s.checks) r) s.checks;
        order = if has_key key s.checks then s.order else s.order ++ key ∷ [];
        cached = false;
      }

  unfoldable pub push_all : Store F → List (Result F) → Store F
  unfolding push
  push_all s [] = s
  push_all s (r ∷ rs) = push_all (push s r) rs

-- the state that `RecordBudgetCheck` stores
unfoldable pub next_budget : BudgetState → Bool → BudgetState
next_budget prev violated =
    if violated
    then record { violated = true; consecutive_violations = prev.consecutive_violations + 1 }
    else no_budget_state

active_keys : List Active → List Str
active_keys = map (λ c. check_key c.typ c.name)

active_names : List Active → List Str
active_names = map (λ c. c.name)

abbrev pub mem : Str → List Str → Bool
mem k ks = any (λ j. j == k) ks

-- whether the second loop of `Reconcile` keeps a budget key
unfoldable pub keeps_budget : List Str → Str → Bool
keeps_budget names key = elim (budget_key_check key) [ none ↦ true | some name ↦ mem name names ]

module _ {F : Type 0} where
  -- `RecordBudgetCheck`: true when the check has just crossed the threshold
  unfoldable pub record_budget_check : Store F → Str → Str → Bool → Store F × Bool
  unfolding next_budget
  record_budget_check s check metric violated =
      let key = budget_key check metric in
      let bs = next_budget (lookup_or key no_budget_state s.budget_checks) violated in
      (
        record s { budget_checks = insert key bs s.budget_checks; cached = false },
        nat_beq bs.consecutive_violations budget_fail_threshold,
      )

  -- the first loop of `Reconcile`
  prune_checks : List Str → List Str → Map Str (Ring F) → Map Str (Ring F)
  prune_checks active [] m = m
  prune_checks active (k ∷ ks) m = prune_checks active ks (if mem k active then m else delete k m)

  -- `Reconcile`
  unfoldable pub reconcile : Store F → List Active → Store F
  unfolding prune_checks active_keys active_names keeps_budget
  reconcile s cs = record s {
    checks = prune_checks (active_keys cs) s.order s.checks;
    order = select (λ k. mem k (active_keys cs)) s.order;
    budget_checks = select (λ kv. keeps_budget (active_names cs) kv.0) s.budget_checks;
  }

  -- `recordWriteResult`
  unfoldable pub record_write_result : Store F → Bool → Store F
  record_write_result s ok =
      if ok
      then record s { consecutive_write_fail = 0 }
      else record s { consecutive_write_fail = s.consecutive_write_fail + 1 }

  -- `WriteHealthy`
  unfoldable pub write_healthy : Store F → Bool
  write_healthy s = ltb s.consecutive_write_fail write_failure_threshold
