-- ===== src/Budget.antt =====
-- internal/budget/budget.go: performance budgets.
pub mod Evaluation
use technician.Common.{
  ℕ, ◌/◌, Bool, true, false, Option, none, some, List, [], ◌∷◌, ◌++◌, map, if◌then◌else◌, select,
  ◌==◌, nat_eq, Str, str_eq, ◌⊎◌, inl, inr,
}
use technician.Config.Convert.{Platform}
use technician.Common.Float.{Floats, of_ℤ}
use technician.Common.Maps.{Map, lookup, insert}
use technician.Common.Text.{codes}
use technician.Common.Order.{sort}
use technician.Config.Kind.{CheckType, http}
use technician.Check.{Result, WebVitals, HarData}

pub record Budget (F : Type 0) : Type 0 where
  pub check : Str
  pub thresholds : Map Str F
  pub alert_on : Str

pub record CheckResult (F : Type 0) : Type 0 where
  pub check : Str
  pub metric : Str
  pub threshold : F
  pub actual : F
  pub inherited : Bool
  pub violated : Bool

pub record Violation (F : Type 0) : Type 0 where
  pub check : Str
  pub metric : Str
  pub threshold : F
  pub actual : F
  pub inherited : Bool

-- `Violation.String`, where `fixed` is `%.2f`
unfoldable pub string : {F : Type 0} → (F → Str) → Violation F → Str
string fixed v =
    let s =
      v.check
      ++ codes ": "
      ++ v.metric
      ++ codes " = "
      ++ fixed v.actual
      ++ codes " (threshold: "
      ++ fixed v.threshold in
    (if v.inherited then s ++ codes ", inherited from \"*\"" else s) ++ codes ")"

-- one round of the loop of `LoadBudgets`
default_alert_on : {F : Type 0} → Budget F → Budget F
default_alert_on b = if b.alert_on == [] then record b { alert_on = codes "exceed" } else b

module _ {F : Type 0} (unmarshal : Str → Str ⊎ List (Budget F)) where
  parsed : Str ⊎ List (Budget F) → Str ⊎ List (Budget F)
  unfolding default_alert_on
  parsed (inl err) = inl (codes "parsing budgets: " ++ err)
  parsed (inr bs) = inr (map default_alert_on bs)

  opened : Str ⊎ Str → Str ⊎ List (Budget F)
  unfolding parsed
  opened (inl err) = inl (codes "reading budgets file: " ++ err)
  opened (inr bytes) = parsed (unmarshal bytes)

  -- `LoadBudgets`, where `read_file` and `yaml.Unmarshal` have their errors on the left
  unfoldable pub load_budgets : (Str → Str ⊎ Str) → Str → Str ⊎ List (Budget F)
  unfolding opened
  load_budgets read_file path = opened (read_file path)

  -- `LoadBudgetsFromDir`
  unfoldable pub load_budgets_from_dir : Platform → (Str → Str ⊎ Str) → Str → Str ⊎ List (Budget F)
  unfolding load_budgets
  load_budgets_from_dir p read_file config_path =
      load_budgets read_file (p.join (p.dir config_path) (codes "budgets.yml"))

is_http : CheckType → Bool
is_http http = true
is_http _ = false

module _ {F : Type 0} (fl : Floats F) where
  -- `float64(d.Milliseconds())`
  abbrev whole_ms : ℕ → F
  whole_ms d = fl.of_ℕ (d / 1000000)

  http_metrics : Result F → Map Str F → Map Str F
  unfolding is_http
  http_metrics r m =
      if is_http r.typ
      then insert (codes "response_bytes") (fl.of_ℕ r.response_bytes) (
          insert (codes "tls") (whole_ms r.tls_duration) (
            insert (codes "dns") (whole_ms r.dns_duration)
              (insert (codes "ttfb") (whole_ms r.ttfb_duration) m)))
      else m

  vital_metrics : Option (WebVitals F) → Map Str F → Map Str F
  vital_metrics none m = m
  vital_metrics (some v) m =
      let m' = insert (codes "cls") v.cls (
        insert (codes "lcp") v.lcp (insert (codes "fcp") v.fcp (insert (codes "ttfb") v.ttfb m))) in
      insert (codes "dom_complete") v.dom_complete
        (if fl.less (fl.of_ℕ 0) v.inp then insert (codes "inp") v.inp m' else m')

  har_metrics : Option (HarData F) → Map Str F → Map Str F
  har_metrics none m = m
  har_metrics (some h) m = insert (codes "total_transfer") (of_ℤ fl h.total_transfer_bytes) m

  -- `extractMetrics`
  unfoldable pub extract_metrics : Result F → Map Str F
  unfolding http_metrics vital_metrics har_metrics
  extract_metrics r = insert (codes "resource_count") (fl.of_ℕ r.resource_count) (
      har_metrics r.har_data (
        vital_metrics r.web_vitals (http_metrics r ((codes "duration", whole_ms r.duration) ∷ []))))

module _ {ℓ} {V : Type ℓ} where
  -- a `range` over a map that writes each entry into another, in an order that Go leaves open
  unfoldable pub set_each : Map Str V → Map Str V → Map Str V
  set_each [] m = m
  set_each ((k, v) ∷ ts) m = insert k v (set_each ts m)

module _ {F : Type 0} where
  -- one of the two loops of `EvaluateAll` over the budgets: those of one name, with the origin of
  -- their thresholds
  unfoldable pub merge : Str → Bool → List (Budget F) → Map Str (F × Bool) → Map Str (F × Bool)
  unfolding set_each
  merge name inherited [] m = m
  merge name inherited (b ∷ bs) m = merge name inherited bs (
      if b.check == name
      then set_each (map (λ kv. (kv.0, (kv.1, inherited))) b.thresholds) m
      else m)

  -- `thresholds` and `inherited`, which always have the same keys, as one map
  unfoldable pub merged : Str → List (Budget F) → Map Str (F × Bool)
  unfolding merge
  merged name bs = merge name false bs (merge (codes "*") true bs [])

module _ {F : Type 0} (fl : Floats F) where
  result_for : Str → Str → F → F → Bool → CheckResult F
  result_for name metric actual threshold inherited = record {
    check = name;
    metric = metric;
    threshold = threshold;
    actual = actual;
    inherited = inherited;
    violated = fl.less threshold actual;
  }

  -- one round of the last loop
  evaluate_one : Str → Map Str F → Map Str (F × Bool) → Str → List (CheckResult F)
  unfolding result_for
  evaluate_one name actuals ts metric = elim (lookup metric actuals) [
    | none ↦ []
    | some actual ↦ elim (lookup metric ts) [
      | none ↦ []
      | some (threshold, inherited) ↦ result_for name metric actual threshold inherited ∷ []
    ]
  ]

  evaluate_each : Str → Map Str F → Map Str (F × Bool) → List Str → List (CheckResult F)
  unfolding evaluate_one
  evaluate_each name actuals ts [] = []
  evaluate_each name actuals ts (k ∷ ks) =
      evaluate_one name actuals ts k ++ evaluate_each name actuals ts ks

  -- `EvaluateAll`
  unfoldable pub evaluate_all : Result F → List (Budget F) → List (CheckResult F)
  unfolding evaluate_each
  evaluate_all r bs =
      let ts = merged r.name bs in
      evaluate_each r.name (extract_metrics fl r) ts (sort (map (λ kv. kv.0) ts))

  violation_of : CheckResult F → Violation F
  violation_of c = record {
    check = c.check;
    metric = c.metric;
    threshold = c.threshold;
    actual = c.actual;
    inherited = c.inherited;
  }

  -- `Evaluate`
  unfoldable pub evaluate : Result F → List (Budget F) → List (Violation F)
  unfolding violation_of
  evaluate r bs = map violation_of (select (λ c. c.violated) (evaluate_all r bs))
