-- ===== src/Budget/Evaluation.antt =====
-- Which thresholds apply to a result, and what `EvaluateAll` says of each.
use technician.Common.{
  ◌≡◌, refl, ap, ◌∙◌, inl, inr, Bool, true, false, Option, none, some, List, [], ◌∷◌, map, arith,
  if◌then◌else◌, Bool-cases, any, ◌==◌, nat_eq, Str, str_beq_iff, str_eq,
}
use technician.Common.Float.{Floats}
use technician.Common.Order.{sort, any-sort}
use technician.Common.Maps.{Map, lookup, lookup-insert}
use technician.Common.Text.{codes}
use technician.Check.{Result}
use technician.Budget.{
  Budget, CheckResult, set_each, merge, merged, extract_metrics, evaluate_one, evaluate_each,
  evaluate_all,
}

module _ {ℓ} {V : Type ℓ} where
  abbrev or_else : Option V → Option V → Option V
  or_else none d = d
  or_else (some v) d = some v

  lookup-set_each :
      (ts m : Map Str V) (k : Str) → lookup k (set_each ts m) ≡ or_else (lookup k ts) (lookup k m)
  unfolding set_each lookup
  lookup-set_each [] m k = refl
  lookup-set_each ((j, v) ∷ ts) m k =
      ground (arith, lookup-insert j k v (set_each ts m), lookup-set_each ts m k)

module _ {F : Type 0} where
  abbrev tagged : Bool → Option F → Option (F × Bool)
  tagged inherited none = none
  tagged inherited (some t) = some (t, inherited)

  lookup-tagged :
      (inherited : Bool) (ts : Map Str F) (k : Str)
      → lookup k (map (λ kv. (kv.0, (kv.1, inherited))) ts) ≡ tagged inherited (lookup k ts)
  unfolding lookup
  lookup-tagged inherited [] k = refl
  lookup-tagged inherited ((j, t) ∷ ts) k = ground (arith, lookup-tagged inherited ts k)

  -- The threshold of a metric in the last budget of a name that has one.
  abbrev pub last_threshold : Str → List (Budget F) → Str → Option F
  last_threshold name [] k = none
  last_threshold name (b ∷ bs) k =
      or_else (last_threshold name bs k) (if b.check == name then lookup k b.thresholds else none)

  lookup-merge :
      (name : Str) (inherited : Bool) (bs : List (Budget F)) (m : Map Str (F × Bool)) (k : Str)
      → lookup k (merge name inherited bs m)
        ≡ or_else (tagged inherited (last_threshold name bs k)) (lookup k m)
  unfolding merge
  lookup-merge name inherited [] m k = refl
  lookup-merge name inherited (b ∷ bs) m k =
      let ts : Map Str (F × Bool) = map (λ kv. (kv.0, (kv.1, inherited))) b.thresholds in
      ground (
        arith,
        lookup-merge name inherited bs m k,
        lookup-merge name inherited bs (set_each ts m) k,
        lookup-set_each ts m k,
        lookup-tagged inherited b.thresholds k,
      )

  -- The threshold that applies to a metric, and whether it comes from the "*" budgets: a check's own
  -- threshold goes before a default, metric by metric.
  abbrev pub effective : Str → List (Budget F) → Str → Option (F × Bool)
  effective name bs k =
      or_else (tagged false (last_threshold name bs k))
        (tagged true (last_threshold (codes "*") bs k))

  lookup-merged :
      (name : Str) (bs : List (Budget F)) (k : Str)
      → lookup k (merged name bs) ≡ effective name bs k
  unfolding merged lookup
  lookup-merged name bs k =
      lookup-merge name false bs (merge (codes "*") true bs []) k
      ∙ rw (lookup-merge (codes "*") true bs [] k) (ground arith)

  -- The first result of a metric.
  abbrev pub find_metric : Str → List (CheckResult F) → Option (CheckResult F)
  find_metric k [] = none
  find_metric k (c ∷ cs) = if c.metric == k then some c else find_metric k cs

abbrev first_of_list {ℓ} : {A : Type ℓ} → List A → Option A
first_of_list [] = none
first_of_list (x ∷ xs) = some x

module _ {F : Type 0} (fl : Floats F) where
  evaluate_each-find :
      (name : Str) (actuals : Map Str F) (ts : Map Str (F × Bool)) (ks : List Str) (k : Str)
      → find_metric k (evaluate_each fl name actuals ts ks)
        ≡ (if any (λ j. j == k) ks then first_of_list (evaluate_one fl name actuals ts k) else none)
  unfolding evaluate_each
  evaluate_each-find name actuals ts [] k = refl
  evaluate_each-find name actuals ts (j ∷ ks) k =
      ground (arith, evaluate_each-find name actuals ts ks k, str_beq_iff j k)

  any-keys :
      {V : Type 0} (ts : Map Str V) (k : Str)
      → any (λ j. j == k) (map (λ kv. kv.0) ts) ≡ false
      → lookup k ts ≡ none
  unfolding lookup
  any-keys [] k h = refl
  any-keys ((j, v) ∷ ts) k h = ground (arith, any-keys ts k)

  -- What is said of a metric that has the value `actual`, or none.
  abbrev pub judged : Str → Str → Option F → Option (F × Bool) → Option (CheckResult F)
  judged name k none t = none
  judged name k (some actual) none = none
  judged name k (some actual) (some (threshold, inherited)) = some (record {
    check = name;
    metric = k;
    threshold = threshold;
    actual = actual;
    inherited = inherited;
    violated = fl.less threshold actual;
  })

  evaluate_one-judged :
      (name : Str) (actuals : Map Str F) (ts : Map Str (F × Bool)) (k : Str)
      → first_of_list (evaluate_one fl name actuals ts k)
        ≡ judged name k (lookup k actuals) (lookup k ts)
  unfolding evaluate_one
  evaluate_one-judged name actuals ts k = ground arith

  judged_present :
      (name : Str) (actuals : Map Str F) (ts : Map Str (F × Bool)) (k : Str)
      → (if any (λ j. j == k) (sort (map (λ kv. kv.0) ts))
          then first_of_list (evaluate_one fl name actuals ts k)
          else none)
        ≡ judged name k (lookup k actuals) (lookup k ts)
  judged_present name actuals ts k =
      let keys : List Str = map (λ kv. kv.0) ts in
      elim (Bool-cases (any (λ j. j == k) keys)) [
        | inl hit ↦ rw (any-sort (λ j. j == k) keys, hit) (evaluate_one-judged name actuals ts k)
        | inr miss ↦ rw (any-sort (λ j. j == k) keys, miss, any-keys ts k miss) (ground (arith))
      ]

  -- A metric is judged exactly when the result has a value for it and a threshold applies: by the
  -- check's own threshold if it has one, else by the default, and it is violated if above.
  pub evaluate_all-judged :
      (r : Result F) (bs : List (Budget F)) (k : Str)
      → find_metric k (evaluate_all fl r bs)
        ≡ judged r.name k (lookup k (extract_metrics fl r)) (effective r.name bs k)
  unfolding evaluate_all
  evaluate_all-judged r bs k =
      let ts = merged r.name bs in
      let keys : List Str = map (λ kv. kv.0) ts in
      let actuals = extract_metrics fl r in
      evaluate_each-find r.name actuals ts (sort keys) k
      ∙ judged_present r.name actuals ts k
      ∙ ap (judged r.name k (lookup k actuals)) (lookup-merged r.name bs k)
