-- ===== src/Status/Snapshot.antt =====
-- internal/status/store.go: the counts of `computeSnapshot`, its overall status, and the budgets.
pub mod Totals
pub mod Compute
pub mod Shown
pub mod Whole
use technician.Common.{
  ℕ, ◌+◌, List, [], ◌∷◌, Bool, true, false, not, ◌&&◌, Str, str_eq, Option, none, some,
  if◌then◌else◌, ltb, leb, nat_beq, length, get_last?, drop,
}
use technician.Common.Maps.{Map, lookup}
use technician.Status.Ring.{Entry, Ring, ordered}
use technician.Status.Store.{Store, BudgetState, budget_key_check, budget_fail_threshold}

pub data CheckStatus : Type 0 where
  pending up error down : CheckStatus

pub data Overall : Type 0 where
  operational all_down degraded none_yet : Overall

pub data BudgetSeverity : Type 0 where
  pass warn failing : BudgetSeverity

pub record Counts : Type 0 where
  pub up_count : ℕ
  pub down_count : ℕ
  pub err_count : ℕ

module _ {F : Type 0} where
  status_of_entry : Option (Entry F) → CheckStatus
  status_of_entry none = pending
  status_of_entry (some e) = if e.success then up else if e.infra_error then error else down

  -- the status of a check: that of its newest entry
  unfoldable pub check_status : Ring F → CheckStatus
  unfolding status_of_entry
  check_status r = status_of_entry (get_last? (ordered r))

unfoldable pub count : CheckStatus → Counts → Counts
count pending c = c
count up c = record c { up_count = c.up_count + 1 }
count error c = record c { err_count = c.err_count + 1 }
count down c = record c { down_count = c.down_count + 1 }

abbrev pub no_counts : Counts
no_counts = record { up_count = 0; down_count = 0; err_count = 0 }

-- the loop over `s.order`, on the rings that it reads, and the counts so far
unfoldable pub count_all : {F : Type 0} → Counts → List (Ring F) → Counts
unfolding count check_status
count_all c [] = c
count_all c (r ∷ rs) = count_all (count (check_status r) c) rs

-- the `switch` on the counts
unfoldable pub overall : Counts → Overall
overall c =
    if nat_beq c.down_count 0 && ltb 0 c.up_count
    then operational
    else if nat_beq c.up_count 0 && ltb 0 c.down_count
    then all_down
    else if ltb 0 c.down_count
    then degraded
    else none_yet

-- the severity of a budget
unfoldable pub budget_severity : BudgetState → BudgetSeverity
budget_severity b =
    if leb budget_fail_threshold b.consecutive_violations
    then failing
    else if b.violated
    then warn
    else pass
