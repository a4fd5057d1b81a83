-- ===== src/Status/Store/Keys.antt =====
-- The store's order and its map hold the same keys, each once, and `Reconcile` keeps it so.
use technician.Common.{
  ◌≡◌, refl, ap, ◌∙◌, inl, inr, Bool, true, false, not, ◌&&◌, ◌||◌, none, some, List, [], ◌∷◌, ◌++◌,
  map, arith, if◌then◌else◌, Bool-cases, select, take-append, ◌==◌, nat_eq, Str, str_beq_iff,
  str_eq, ==-sym,
}
use technician.Common.Float.{Floats}
use technician.Common.Maps.{Map, lookup, insert, delete, has_key, lookup-insert, lookup-delete}
use technician.Common.Text.Split.{Free, last_index-append}
use technician.Check.{Result}
use technician.Status.Ring.{Ring}
use technician.Status.Store.{
  Store, BudgetState, Active, check_key, budget_key, budget_key_check, push, mem, prune_checks,
  reconcile, keeps_budget, active_keys, active_names,
}

-- No element stands twice.
abbrev pub Distinct : List Str → Type 0
Distinct [] = Unit {0}
Distinct (k ∷ ks) = (mem k ks ≡ false) × Distinct ks

-- The keys of the map are those of the order, in which none stands twice.
pub record IsKeyed {F : Type 0} (s : Store F) : Type 0 where
  pub keyed : (k : Str) → mem k s.order ≡ has_key k s.checks
  pub distinct : Distinct s.order

mem-append : (k : Str) (xs ys : List Str) → mem k (xs ++ ys) ≡ (mem k xs || mem k ys)
mem-append k [] ys = refl
mem-append k (x ∷ xs) ys = ground (arith, mem-append k xs ys)

Distinct-snoc : (k : Str) (xs : List Str) → Distinct xs → mem k xs ≡ false → Distinct (xs ++ k ∷ [])
Distinct-snoc k [] d n = ground arith
Distinct-snoc k (x ∷ xs) d n = (
  ground (arith, mem-append x xs (k ∷ []), ==-sym k x, ==-sym x k),
  Distinct-snoc k xs d.1 (ground arith),
)

mem-select : (p : Str → Bool) (k : Str) (xs : List Str) → mem k (select p xs) ≡ (p k && mem k xs)
mem-select p k [] = ground arith
mem-select p k (x ∷ xs) = ground (arith, mem-select p k xs, str_beq_iff x k)

Distinct-select : (p : Str → Bool) (xs : List Str) → Distinct xs → Distinct (select p xs)
Distinct-select p [] d = tt
Distinct-select p (x ∷ xs) d = ground (arith, Distinct-select p xs d.1, mem-select p x xs)

module _ {F : Type 0} where
  has_key-insert :
      (k j : Str) (g : Ring F) (m : Map Str (Ring F))
      → has_key j (insert k g m) ≡ (if k == j then true else has_key j m)
  unfolding has_key
  has_key-insert k j g m = ground (arith, lookup-insert k j g m)

  lookup-prune_checks :
      (active ks : List Str) (k : Str) (m : Map Str (Ring F))
      → lookup k (prune_checks active ks m)
        ≡ (if mem k ks && not (mem k active) then none else lookup k m)
  unfolding prune_checks
  lookup-prune_checks active [] k m = refl
  lookup-prune_checks active (j ∷ ks) k m = ground (
    arith,
    lookup-prune_checks active ks k m,
    lookup-prune_checks active ks k (delete j m),
    lookup-delete j k m,
    str_beq_iff j k,
  )

  has_key-false : (k : Str) (m : Map Str (Ring F)) → has_key k m ≡ false → lookup k m ≡ none
  unfolding has_key
  has_key-false k m h = ground arith

  -- `order` as `Push` leaves it when the key is inserted.
  abbrev order_after : Str → List Str → Map Str (Ring F) → List Str
  order_after key order m = if has_key key m then order else order ++ key ∷ []

  mem-order_after :
      (key k : Str) (g : Ring F) (order : List Str) (m : Map Str (Ring F))
      → mem k order ≡ has_key k m
      → mem key order ≡ has_key key m
      → mem k (order_after key order m) ≡ has_key k (insert key g m)
  mem-order_after key k g order m h hk =
      ground (arith, has_key-insert key k g m, mem-append k order (key ∷ []), str_beq_iff key k)

  Distinct-order_after :
      (key : Str) (order : List Str) (m : Map Str (Ring F))
      → mem key order ≡ has_key key m
      → Distinct order
      → Distinct (order_after key order m)
  Distinct-order_after key order m h d = elim (Bool-cases (has_key key m)) [
    | inl old ↦ rw old d
    | inr new ↦ rw new (Distinct-snoc key order d (cc))
  ]

  -- `Push` keeps the order and the map on the same keys, each once.
  pub push-IsKeyed :
      (fl : Floats F) (s : Store F) (r : Result F) → IsKeyed s → IsKeyed (push fl s r)
  unfolding push
  push-IsKeyed fl s r v =
      let key = check_key r.typ r.name in
      record {
        keyed = λ k. mem-order_after key k _ s.order s.checks (v.keyed k) (v.keyed key);
        distinct = Distinct-order_after key s.order s.checks (v.keyed key) v.distinct;
      }

  -- In a store whose order and map hold the same keys, `Reconcile` drops the rings of the checks that are not configured, and leaves the others alone.
  pub reconcile-lookup :
      (s : Store F) (cs : List Active) (k : Str)
      → IsKeyed s
      → lookup k (reconcile s cs).checks
        ≡ (if mem k (map (λ c. check_key c.typ c.name) cs) then lookup k s.checks else none)
  unfolding reconcile active_keys
  reconcile-lookup s cs k v = ground (
    arith,
    lookup-prune_checks (active_keys cs) s.order k s.checks,
    v.keyed k,
    has_key-false k s.checks,
  )

  -- `Reconcile` keeps the order and the map on the same keys, each once.
  pub reconcile-IsKeyed : (s : Store F) (cs : List Active) → IsKeyed s → IsKeyed (reconcile s cs)
  unfolding reconcile has_key active_keys
  reconcile-IsKeyed s cs v = record {
    keyed = λ k. ground (
      arith,
      mem-select (λ j. mem j (active_keys cs)) k s.order,
      reconcile-lookup s cs k v,
      v.keyed k,
    );
    distinct = Distinct-select (λ k. mem k (active_keys cs)) s.order v.distinct;
  }

lookup-select :
    (p : Str → Bool) (k : Str) (m : Map Str BudgetState)
    → lookup k (select (λ kv. p kv.0) m) ≡ (if p k then lookup k m else none)
unfolding lookup
lookup-select p k [] = ground arith
lookup-select p k ((j, v) ∷ m) = ground (arith, lookup-select p k m, str_beq_iff j k)

-- The check's name is read back from a budget key, if the metric's name holds no colon.
pub budget_key_check-budget_key :
    (check metric : Str)
    → Free b':' metric
    → budget_key_check (budget_key check metric) ≡ some check
unfolding budget_key_check budget_key
budget_key_check-budget_key check metric h =
    rw (last_index-append b':' check metric h, budget_key_check)
      (ap some (take-append check (b':' ∷ metric)))

-- For a metric whose name holds no colon, `Reconcile` keeps the budget state exactly when a check of that name is configured.
pub reconcile-budget :
    {F : Type 0} (s : Store F) (cs : List Active) (check metric : Str)
    → Free b':' metric
    → lookup (budget_key check metric) (reconcile s cs).budget_checks ≡ (
        if mem check (map (λ c. c.name) cs)
        then lookup (budget_key check metric) s.budget_checks
        else none)
unfolding reconcile keeps_budget active_names
reconcile-budget s cs check metric h =
    lookup-select (keeps_budget (active_names cs)) (budget_key check metric) s.budget_checks
    ∙ rw (budget_key_check-budget_key check metric h, keeps_budget)
