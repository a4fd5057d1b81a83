-- ===== src/Status/Snapshot/Compute.antt =====
-- internal/status/store.go: `computeSnapshot` and `Snapshot`. The service and the origin are copied and
-- left out.
use technician.Common.{
  ℕ, suc, ◌+◌, ◌-◌, Option, none, some, List, [], ◌∷◌, ◌++◌, map, nat_beq, if◌then◌else◌, length,
  drop, get_last?, select, any, ◌==◌, nat_eq, Str, str_eq,
}
use technician.Common.Float.{Floats}
use technician.Common.Grouping.{no_groups, group_all, listed}
use technician.Common.Maps.{Map, lookup, insert, lookup_or}
use technician.Common.Order.{str_less}
use technician.Config.Kind.{CheckType, all_types, text}
use technician.Status.Ring.{Entry, Ring, ordered}
use technician.Status.Store.{Store, BudgetState, budget_key_check}
use technician.Status.Figures.{
  Latency, TimingBreakdown, compute_latency, compute_timing, uptime_percent, fmt_duration,
}
use technician.Status.Snapshot.{
  CheckStatus, down, Overall, BudgetSeverity, check_status, count_all, no_counts, overall,
  budget_severity,
}

pub record BudgetCheck : Type 0 where
  pub metric : Str
  pub severity : BudgetSeverity

pub record CheckState (F : Type 0) : Type 0 where
  pub name : Str
  pub typ : CheckType
  pub domain : Str
  pub status : CheckStatus
  pub down_since : Str
  pub uptime : Str
  pub latency : Option (Latency F)
  pub timing : Option (TimingBreakdown F)
  pub latest : Option (Entry F)
  pub history : List (Entry F)
  pub budget_checks : List BudgetCheck

pub record CheckGroup (F : Type 0) : Type 0 where
  pub name : Str
  pub checks : List (CheckState F)

pub record Summary : Type 0 where
  pub total : ℕ
  pub up_total : ℕ
  pub down_total : ℕ
  pub error_total : ℕ
  pub budget_total : ℕ
  pub budget_violations : ℕ

pub record Snapshot (F : Type 0) : Type 0 where
  pub overall_status : Overall
  pub summary : Summary
  pub types : List CheckType
  pub groups : List (CheckGroup F)
  pub checks : List (CheckState F)
  pub updated_at : ℕ

-- the loop over the budgets: the checks of each name
add_budget : Str → Str → BudgetState → Map Str (List BudgetCheck) → Map Str (List BudgetCheck)
add_budget key name b m =
    insert name
      (lookup_or name [] m
        ++ (record { metric = drop (length name + 1) key; severity = budget_severity b }) ∷ [])
      m

probe_budgets_with :
    Str → Option Str → BudgetState → Map Str (List BudgetCheck) → Map Str (List BudgetCheck)
unfolding add_budget
probe_budgets_with key none b m = m
probe_budgets_with key (some name) b m = add_budget key name b m

unfoldable pub probe_budgets :
    Map Str BudgetState → Map Str (List BudgetCheck) → Map Str (List BudgetCheck)
unfolding probe_budgets_with budget_key_check
probe_budgets [] m = m
probe_budgets ((key, b) ∷ rest) m =
    probe_budgets rest (probe_budgets_with key (budget_key_check key) b m)

insert_metric : BudgetCheck → List BudgetCheck → List BudgetCheck
insert_metric b [] = b ∷ []
insert_metric b (c ∷ cs) = if str_less c.metric b.metric then c ∷ insert_metric b cs else b ∷ c ∷ cs

-- `sort.Slice` by the metrics, which are all different for one check
unfoldable pub sort_metrics : List BudgetCheck → List BudgetCheck
unfolding insert_metric
sort_metrics [] = []
sort_metrics (b ∷ bs) = insert_metric b (sort_metrics bs)

unfoldable pub budget_violations_of : Map Str BudgetState → ℕ
budget_violations_of [] = 0
budget_violations_of ((key, b) ∷ rest) =
    let n = budget_violations_of rest in if b.violated then suc n else n

-- the types that are seen, in the order of the page
unfoldable pub distinct_types : {F : Type 0} → List (Ring F) → List CheckType
distinct_types rs = select (λ t. any (λ r. text r.typ == text t) rs) all_types

-- what a check that is down shows
unfoldable pub down_text : CheckStatus → ℕ → ℕ → Str
down_text down now since = if nat_beq since 0 then [] else fmt_duration (now - since)
down_text _ now since = []

module _ {F : Type 0} where
  -- the rings of the keys; `none` is the nil that a missing key gives, on which the loop panics
  unfoldable pub read_rings : List Str → Map Str (Ring F) → Option (List (Ring F))
  read_rings [] checks = some []
  read_rings (k ∷ ks) checks = elim (lookup k checks) [
    | none ↦ none
    | some r ↦ elim (read_rings ks checks) [ none ↦ none | some rs ↦ some (r ∷ rs) ]
  ]

  unfoldable pub attach : Map Str (List BudgetCheck) → CheckState F → CheckState F
  attach budgets c = elim (lookup c.name budgets) [
    | none ↦ c
    | some bs ↦ record c { budget_checks = sort_metrics bs }
  ]

  abbrev pub with_group : List (Ring F) → List (CheckState F) → List (Str × CheckState F)
  with_group (r ∷ rs) (c ∷ cs) = (r.group, c) ∷ with_group rs cs
  with_group _ _ = []

  abbrev pub group_of :
      (CheckState F → CheckState F) → Str → List (Str × CheckState F) → CheckGroup F
  group_of finish k ps = record { name = k; checks = map (λ p. finish p.1) ps }

  abbrev pub summary_of : Store F → List (Ring F) → Summary
  summary_of s rs = record {
    total = length s.order;
    up_total = (count_all no_counts rs).up_count;
    down_total = (count_all no_counts rs).down_count;
    error_total = (count_all no_counts rs).err_count;
    budget_total = length s.budget_checks;
    budget_violations = budget_violations_of s.budget_checks;
  }

-- `format` is `%.1f`, and `now` the instant of the call. `none` is a panic.
module _ {F : Type 0} (fl : Floats F) (format : F → Str) (now : ℕ) where
  -- the state of a check, of its latencies
  abbrev pub state_with : Ring F → Option (Latency F) → CheckState F
  unfolding down_text
  state_with r l = record {
    name = r.name;
    typ = r.typ;
    domain = r.target;
    status = check_status r;
    down_since = down_text (check_status r) now r.down_since;
    uptime = uptime_percent fl format (ordered r);
    latency = l;
    timing = compute_timing fl (ordered r);
    latest = get_last? (ordered r);
    history = ordered r;
    budget_checks = [];
  }

  unfoldable pub check_state : Ring F → Option (CheckState F)
  unfolding state_with
  check_state r = elim (compute_latency fl (ordered r)) [
    | none ↦ none
    | some l ↦ some (state_with r l)
  ]

  unfoldable pub check_states : List (Ring F) → Option (List (CheckState F))
  unfolding check_state
  check_states [] = some []
  check_states (r ∷ rs) = elim (check_state r) [
    | none ↦ none
    | some c ↦ elim (check_states rs) [ none ↦ none | some cs ↦ some (c ∷ cs) ]
  ]

  unfoldable pub assemble : Store F → List (Ring F) → List (CheckState F) → Snapshot F
  assemble s rs cs =
      let budgets = probe_budgets s.budget_checks [] in
      record {
        overall_status = overall (count_all no_counts rs);
        summary = summary_of s rs;
        types = distinct_types rs;
        groups =
            listed (group_of (attach budgets)) (group_all (λ p. p.0) (with_group rs cs) no_groups);
        checks = map (attach budgets) cs;
        updated_at = now;
      }

  -- `computeSnapshot`
  unfoldable pub compute_snapshot : Store F → Option (Snapshot F)
  unfolding read_rings check_states assemble
  compute_snapshot s = elim (read_rings s.order s.checks) [
    | none ↦ none
    | some rs ↦ elim (check_states rs) [ none ↦ none | some cs ↦ some (assemble s rs cs) ]
  ]
