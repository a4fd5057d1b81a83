-- ===== src/Status/Snapshot/Shown.antt =====
-- What the state of a check shows of its ring.
use technician.Common.{
  ◌≡◌, refl, Bool, true, false, Option, none, some, List, [], ◌∷◌, map, if◌then◌else◌, get_last?,
  nat_eq, Str, str_eq,
}
use technician.Common.Maps.{Map, lookup}
use technician.Status.Ring.{Entry, Ring, ordered}
use technician.Status.Snapshot.{
  CheckStatus, status_of_entry, pending, up, error, down, check_status,
}
use technician.Status.Snapshot.Compute.{BudgetCheck, CheckState, sort_metrics, attach}

abbrev pub status_by : Bool → Bool → CheckStatus
status_by true infra = up
status_by false true = error
status_by false false = down

-- The status that the newest entry gives.
abbrev pub status_shown : {F : Type 0} → Option (Entry F) → CheckStatus
status_shown none = pending
status_shown (some e) = status_by e.success e.infra_error

-- A state shows a ring: its name, its type and its target, its entries from the oldest to the newest,
-- and the newest with its status.
abbrev pub Shows : {F : Type 0} → Ring F → CheckState F → Type 0
Shows r c =
    (c.name ≡ r.name)
    × (c.typ ≡ r.typ)
    × (c.domain ≡ r.target)
    × (c.history ≡ ordered r)
    × (c.latest ≡ get_last? (ordered r))
    × (c.status ≡ status_shown (get_last? (ordered r)))

-- The states show the rings, one each, in order.
abbrev pub AreShown : {F : Type 0} → List (Ring F) → List (CheckState F) → Type 0
AreShown [] cs = cs ≡ []
AreShown (r ∷ rs) [] = r ∷ rs ≡ []
AreShown (r ∷ rs) (c ∷ cs) = Shows r c × AreShown rs cs

status_of_entry-shown : {F : Type 0} (o : Option (Entry F)) → status_of_entry o ≡ status_shown o
unfolding status_of_entry
status_of_entry-shown none = refl
status_of_entry-shown (some e) = by_flags e.success e.infra_error
  where
    by_flags :
        (good infra : Bool)
        → (if good then up else if infra then error else down) ≡ status_by good infra
    by_flags true infra = refl
    by_flags false true = refl
    by_flags false false = refl

pub check_status-shown :
    {F : Type 0} (r : Ring F) → check_status r ≡ status_shown (get_last? (ordered r))
unfolding check_status
check_status-shown r = status_of_entry-shown (get_last? (ordered r))

pub Shows-attach :
    {F : Type 0} (budgets : Map Str (List BudgetCheck)) (r : Ring F) (c : CheckState F)
    → Shows r c
    → Shows r (attach budgets c)
unfolding attach
Shows-attach budgets r c h = attached (lookup c.name budgets)
  where
    attached :
        (o : Option (List BudgetCheck))
        → Shows r (elim o [ none ↦ c | some bs ↦ record c { budget_checks = sort_metrics bs } ])
    attached none = h
    attached (some bs) = h

pub AreShown-map :
    {F : Type 0} (finish : CheckState F → CheckState F)
    → ((r : Ring F) (c : CheckState F) → Shows r c → Shows r (finish c))
    → (rs : List (Ring F)) (cs : List (CheckState F)) → AreShown rs cs
    → AreShown rs (map finish cs)
AreShown-map finish keeps [] cs h = rw h refl
AreShown-map finish keeps (r ∷ rs) [] h = h
AreShown-map finish keeps (r ∷ rs) (c ∷ cs) (h, more) =
    (keeps r c h, AreShown-map finish keeps rs cs more)
