-- ===== src/Status/Store/Streaks.antt =====
-- Consecutive budget violations and consecutive write failures.
use technician.Common.{
  ◌+◌, ◌≡◌, refl, Bool, not, List, [], ◌∷◌, ◌++◌, map, arith, ltb, nat_beq, if◌then◌else◌, length,
  every, length-map, ◌==◌, nat_eq, Str, str_eq, ==-refl,
}
use technician.Common.Maps.{lookup_or, lookup_or-insert}
use technician.Common.Streak.{trailing, every-trailing, trailing-snoc}
use technician.Status.Store.{
  Store, BudgetState, no_budget_state, next_budget, budget_key, record_budget_check,
  record_write_result, write_healthy, budget_fail_threshold, write_failure_threshold,
}

module _ {F : Type 0} where
  -- The checks of one budget metric, in order.
  pub record_all : Store F → Str → Str → List Bool → Store F
  record_all s check metric [] = s
  record_all s check metric (v ∷ vs) =
      record_all (record_budget_check s check metric v).0 check metric vs

  record_all-snoc :
      (s : Store F) (check metric : Str) (vs : List Bool) (v : Bool)
      → record_all s check metric (vs ++ v ∷ [])
        ≡ (record_budget_check (record_all s check metric vs) check metric v).0
  unfolding record_all
  record_all-snoc s check metric [] v = refl
  record_all-snoc s check metric (w ∷ vs) v =
      record_all-snoc (record_budget_check s check metric w).0 check metric vs v

  abbrev pub state_of : Store F → Str → BudgetState
  state_of s key = lookup_or key no_budget_state s.budget_checks

  record_budget_check-state :
      (s : Store F) (check metric : Str) (v : Bool) (key : Str)
      → state_of (record_budget_check s check metric v).0 key ≡ (
          if budget_key check metric == key
          then next_budget (state_of s (budget_key check metric)) v
          else state_of s key)
  unfolding record_budget_check
  record_budget_check-state s check metric v key =
      lookup_or-insert (budget_key check metric) key no_budget_state _ s.budget_checks

  record_all-count :
      (s : Store F) (check metric : Str) (vs : List Bool)
      → (state_of (record_all s check metric vs) (budget_key check metric)).consecutive_violations
        ≡ (if every (λ x. x) vs
            then (state_of s (budget_key check metric)).consecutive_violations + length vs
            else trailing vs)
  unfolding record_all next_budget
  record_all-count s check metric [] = omega arith
  record_all-count s check metric (v ∷ vs) =
      let key = budget_key check metric in
      let s' = (record_budget_check s check metric v).0 in
      ground (
        arith,
        record_all-count s' check metric vs,
        record_budget_check-state s check metric v key,
        ==-refl key,
        every-trailing vs,
      )

  -- The signal of `RecordBudgetCheck` that starts a notification: it is given exactly when the
  -- metric has been violated in the last three checks and not in the one before, counting from a
  -- state without violations.
  pub record_budget_check-signal :
      (s : Store F) (check metric : Str) (vs : List Bool) (v : Bool)
      → (state_of s (budget_key check metric)).consecutive_violations ≡ 0
      → (record_budget_check (record_all s check metric vs) check metric v).1
        ≡ nat_beq (trailing (vs ++ v ∷ [])) budget_fail_threshold
  unfolding record_budget_check next_budget
  record_budget_check-signal s check metric vs v h =
      ground (arith, record_all-count s check metric vs, trailing-snoc vs v, every-trailing vs)

  -- The saves of a run, each with whether it went well.
  unfoldable pub write_all : Store F → List Bool → Store F
  write_all s [] = s
  write_all s (ok ∷ oks) = write_all (record_write_result s ok) oks

  write_all-count :
      (s : Store F) (oks : List Bool)
      → (write_all s oks).consecutive_write_fail ≡ (
          if every (λ x. x) (map not oks)
          then s.consecutive_write_fail + length oks
          else trailing (map not oks))
  unfolding write_all record_write_result
  write_all-count s [] = omega arith
  write_all-count s (ok ∷ oks) = ground (
    arith,
    write_all-count (record_write_result s ok) oks,
    every-trailing (map not oks),
    length-map oks not,
  )

  -- From a state without failed saves, the store is healthy exactly while fewer than five saves in a row have failed, so one save that
  -- goes well makes it healthy again.
  pub write_healthy_iff :
      (s : Store F) (oks : List Bool)
      → s.consecutive_write_fail ≡ 0
      → write_healthy (write_all s oks) ≡ ltb (trailing (map not oks)) write_failure_threshold
  unfolding write_healthy
  write_healthy_iff s oks h =
      ground (arith, write_all-count s oks, every-trailing (map not oks), length-map oks not)
