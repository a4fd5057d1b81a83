-- ===== src/Status/Snapshot/Totals.antt =====
-- What the overall status says of the checks, and when a budget is shown as failing.
use technician.Common.{
  ◌≡◌, refl, ◌∙◌, Bool, true, false, ◌||◌, List, [], ◌∷◌, arith, ltb, if◌then◌else◌, any, nat_eq,
  str_eq,
}
use technician.Status.Ring.{Ring}
use technician.Status.Snapshot.{
  CheckStatus, up, down, operational, all_down, degraded, none_yet, Counts, check_status, count,
  count_all, no_counts, overall,
}

abbrev is_up : CheckStatus → Bool
is_up up = true
is_up _ = false

abbrev is_down : CheckStatus → Bool
is_down down = true
is_down _ = false

up_step :
    (s : CheckStatus) (c : Counts) (b : Bool)
    → (ltb 0 (count s c).up_count || b) ≡ (ltb 0 c.up_count || (if is_up s then true else b))
unfolding count
up_step up c b = ground arith
up_step _ c b = refl

down_step :
    (s : CheckStatus) (c : Counts) (b : Bool)
    → (ltb 0 (count s c).down_count || b) ≡ (ltb 0 c.down_count || (if is_down s then true else b))
unfolding count
down_step down c b = ground arith
down_step _ c b = refl

module _ {F : Type 0} where
  -- Whether the newest run of some check succeeded, or failed on its target.
  abbrev pub some_up : List (Ring F) → Bool
  some_up rs = any (λ r. is_up (check_status r)) rs

  abbrev pub some_down : List (Ring F) → Bool
  some_down rs = any (λ r. is_down (check_status r)) rs

  count_all-up :
      (c : Counts) (rs : List (Ring F))
      → ltb 0 (count_all c rs).up_count ≡ (ltb 0 c.up_count || some_up rs)
  unfolding count_all count
  count_all-up c [] = ground arith
  count_all-up c (r ∷ rs) =
      count_all-up (count (check_status r) c) rs ∙ up_step (check_status r) c (some_up rs)

  count_all-down :
      (c : Counts) (rs : List (Ring F))
      → ltb 0 (count_all c rs).down_count ≡ (ltb 0 c.down_count || some_down rs)
  unfolding count_all count
  count_all-down c [] = ground arith
  count_all-down c (r ∷ rs) =
      count_all-down (count (check_status r) c) rs ∙ down_step (check_status r) c (some_down rs)

  -- The overall status is operational when some check is up and none is down, down when some is down
  -- and none is up, degraded when there are both, and pending when there is neither: checks without
  -- a run and infrastructure errors do not count.
  pub overall-some :
      (rs : List (Ring F))
      → overall (count_all no_counts rs) ≡ (
          if some_down rs
          then (if some_up rs then degraded else all_down)
          else (if some_up rs then operational else none_yet))
  unfolding overall
  overall-some rs = ground (arith, count_all-up no_counts rs, count_all-down no_counts rs)
