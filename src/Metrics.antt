-- ===== src/Metrics.antt =====
-- internal/metrics/prometheus.go: `RecordResult`, with the guard on the names of its labels.
pub mod Gauges
pub mod Series
pub mod Guard
pub mod Labels
pub mod Har
use technician.Common.{
  ℕ, Bool, true, false, Option, List, [], ◌∷◌, leb, if◌then◌else◌, length, any, ◌==◌, nat_eq, Str,
  str_eq,
}
use technician.Common.Int.{ℤ, pos, pos_part, leb_ℤ}
use technician.Common.Float.{Floats}
use technician.Config.Origin.{Origin}
use technician.Check.{Result}
use technician.Metrics.Gauges.{budget_violation, check_infra_error}
use technician.Metrics.Series.{
  Write, site, origin_labels, site_labels_of, typed, set_to, one_if, record_admitted,
}

-- `maxCheckCardinality`, `seenCheckNames` and `cardinalityLimit`
pub record Cardinality : Type 0 where
  pub limit : ℕ
  pub seen : List Str
  pub warned : Bool

-- `SetMaxCheckCardinality`
unfoldable pub set_max_check_cardinality : ℤ → Cardinality → Cardinality
set_max_check_cardinality limit c =
    if leb_ℤ limit (pos 0) then c else record c { limit = pos_part limit; warned = false }

-- the guard: whether the name is to be recorded
unfoldable pub admit : Str → Cardinality → Cardinality × Bool
admit name c =
    if any (λ n. n == name) c.seen
    then (c, true)
    else if leb c.limit (length c.seen)
    then (record c { warned = true }, false)
    else (record c { seen = name ∷ c.seen }, true)

module _ {F : Type 0} (fl : Floats F) where
  -- `RecordResult`: the guard's state, and what is written
  unfoldable pub record_result : ℕ → Result F → Cardinality → Cardinality × List (Write F)
  unfolding record_admitted admit site_labels_of
  record_result unix_now r c =
      let l = site_labels_of r in
      let a = admit r.name c in
      if r.infra_error then (c, typed r l check_infra_error (fl.of_ℕ 1) ∷ []) else (
        a.0,
        typed r l check_infra_error (fl.of_ℕ 0)
            ∷ (if a.1 then record_admitted fl unix_now r l else []),
      )

  -- `RecordBudgetViolation`
  unfoldable pub record_budget_violation : Str → Str → Bool → Option Origin → Write F
  record_budget_violation check metric violated origin =
      set_to budget_violation (check ∷ metric ∷ site (origin_labels origin)) (one_if fl violated)
