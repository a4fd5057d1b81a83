-- ===== src/Status/Page/Tabs/Shown.antt =====
-- The tabs of the page show the categories of the checks with their worst status.
use technician.Common.{
  ℕ, ◌+◌, ◌≡◌, refl, ap, ◌∙◌, Bool, true, false, ◌||◌, Option, none, some, List, [], ◌∷◌, map,
  arith, ltb, if◌then◌else◌, length, select, any, ◌==◌, nat_eq, Str, str_beq_iff, str_eq,
}
use technician.Common.Maps.{lookup, lookup_or, lookup-insert, lookup_or-insert}
use technician.Status.Snapshot.{CheckStatus, pending, up, error, down}
use technician.Status.Snapshot.Compute.{CheckState}
use technician.Status.Page.{CategoryInfo, is_down, is_error}
use technician.Status.Page.Tabs.{
  no_tally, prio, tally_check, tally_all, category_order, shown_status, tabs_of, tagged, categories,
  Tally,
}

-- The statuses of a category's checks.
abbrev pub within : Str → List (Str × CheckStatus) → List CheckStatus
within n [] = []
within n ((cat, s) ∷ rest) = if cat == n then s ∷ within n rest else within n rest

abbrev is_pending : CheckStatus → Bool
is_pending pending = true
is_pending _ = false

-- What a tab shows: that some check is down, else that one has an error, else that one is pending, as
-- up; and nothing at all if all are up.
abbrev pub tab_status : List CheckStatus → Option CheckStatus
tab_status ss =
    if any is_down ss
    then some down
    else if any is_error ss
    then some error
    else if any is_pending ss
    then some up
    else none

-- The worse of what is known and a status.
abbrev prio_of : Option CheckStatus → ℕ
prio_of none = 0
prio_of (some s) = prio s

abbrev worse : Option CheckStatus → CheckStatus → Option CheckStatus
worse o s = if ltb (prio_of o) (prio s) then some s else o

abbrev worst_from : Option CheckStatus → List CheckStatus → Option CheckStatus
worst_from o [] = o
worst_from o (s ∷ ss) = worst_from (worse o s) ss

-- The priorities are those of the names.
abbrev IsTallied : Tally → Type 0
IsTallied t = (n : Str) → lookup_or n 0 t.status_prio ≡ prio_of (lookup n t.status_name)

tally_check-IsTallied :
    (cat : Str) (s : CheckStatus) (t : Tally) → IsTallied t → IsTallied (tally_check cat s t)
unfolding tally_check
tally_check-IsTallied cat s t v n = ground (
  arith,
  v n,
  str_beq_iff cat n,
  lookup_or-insert cat n 0 (prio s) t.status_prio,
  lookup-insert cat n s t.status_name,
)

tally_check-name :
    (cat n : Str) (s : CheckStatus) (t : Tally)
    → IsTallied t
    → lookup n (tally_check cat s t).status_name
      ≡ (if cat == n then worse (lookup n t.status_name) s else lookup n t.status_name)
unfolding tally_check
tally_check-name cat n s t v =
    ground (arith, v cat, str_beq_iff cat n, lookup-insert cat n s t.status_name)

tally_check-count :
    (cat n : Str) (s : CheckStatus) (t : Tally)
    → lookup_or n 0 (tally_check cat s t).counts
      ≡ lookup_or n 0 t.counts + (if cat == n then 1 else 0)
unfolding tally_check
tally_check-count cat n s t =
    ground
      (arith, str_beq_iff cat n, lookup_or-insert cat n 0 (lookup_or cat 0 t.counts + 1) t.counts)

tally_all-count :
    (n : Str) (xs : List (Str × CheckStatus)) (t : Tally)
    → lookup_or n 0 (tally_all xs t).counts ≡ lookup_or n 0 t.counts + length (within n xs)
unfolding tally_all
tally_all-count n [] t = omega arith
tally_all-count n ((cat, s) ∷ xs) t =
    ground (arith, tally_all-count n xs (tally_check cat s t), tally_check-count cat n s t)

tally_all-name :
    (n : Str) (xs : List (Str × CheckStatus)) (t : Tally)
    → IsTallied t
    → lookup n (tally_all xs t).status_name ≡ worst_from (lookup n t.status_name) (within n xs)
unfolding tally_all
tally_all-name n [] t v = refl
tally_all-name n ((cat, s) ∷ xs) t v = ground (
  arith,
  tally_all-name n xs (tally_check cat s t) (tally_check-IsTallied cat s t v),
  tally_check-name cat n s t v,
)

abbrev has : (CheckStatus → Bool) → Option CheckStatus → Bool
has p none = false
has p (some s) = p s

abbrev is_known : Option CheckStatus → Option CheckStatus
is_known none = none
is_known (some s) = some up

abbrev tab_status_from : Option CheckStatus → List CheckStatus → Option CheckStatus
tab_status_from o ss =
    if has is_down o || any is_down ss
    then some down
    else if has is_error o || any is_error ss
    then some error
    else if has is_pending o || any is_pending ss
    then some up
    else is_known o

tab_status_from-worse :
    (s : CheckStatus) (o : Option CheckStatus) (ss : List CheckStatus)
    → tab_status_from (worse o s) ss ≡ tab_status_from o (s ∷ ss)
tab_status_from-worse up none ss = ground arith
tab_status_from-worse up (some up) ss = ground arith
tab_status_from-worse up (some pending) ss = ground arith
tab_status_from-worse up (some error) ss = ground arith
tab_status_from-worse up (some down) ss = ground arith
tab_status_from-worse pending none ss = ground arith
tab_status_from-worse pending (some up) ss = ground arith
tab_status_from-worse pending (some pending) ss = ground arith
tab_status_from-worse pending (some error) ss = ground arith
tab_status_from-worse pending (some down) ss = ground arith
tab_status_from-worse error none ss = ground arith
tab_status_from-worse error (some up) ss = ground arith
tab_status_from-worse error (some pending) ss = ground arith
tab_status_from-worse error (some error) ss = ground arith
tab_status_from-worse error (some down) ss = ground arith
tab_status_from-worse down none ss = ground arith
tab_status_from-worse down (some up) ss = ground arith
tab_status_from-worse down (some pending) ss = ground arith
tab_status_from-worse down (some error) ss = ground arith
tab_status_from-worse down (some down) ss = ground arith

worst_from-tab_status :
    (ss : List CheckStatus) (o : Option CheckStatus)
    → shown_status (worst_from o ss) ≡ tab_status_from o ss
worst_from-tab_status [] none = refl
worst_from-tab_status [] (some up) = refl
worst_from-tab_status [] (some pending) = refl
worst_from-tab_status [] (some error) = refl
worst_from-tab_status [] (some down) = refl
worst_from-tab_status (s ∷ ss) o =
    worst_from-tab_status ss (worse o s) ∙ tab_status_from-worse s o ss

length-within :
    (n : Str) (xs : List (Str × CheckStatus))
    → ltb 0 (length (within n xs)) ≡ any (λ p. p.0 == n) xs
length-within n [] = refl
length-within n ((cat, s) ∷ xs) = ground (arith, length-within n xs)

abbrev pub tab : List (Str × CheckStatus) → Str → CategoryInfo
tab xs n = record { name = n; status = tab_status (within n xs); count = length (within n xs) }

no_tally-count :
    (n : Str) (xs : List (Str × CheckStatus))
    → lookup_or n 0 (tally_all xs no_tally).counts ≡ length (within n xs)
unfolding lookup lookup_or
no_tally-count n xs = omega (arith, tally_all-count n xs no_tally)

no_tally-name :
    (n : Str) (xs : List (Str × CheckStatus))
    → lookup n (tally_all xs no_tally).status_name ≡ worst_from none (within n xs)
unfolding lookup lookup_or
no_tally-name n xs = tally_all-name n xs no_tally (λ k. refl)

tabs_of-tally_all :
    (ns : List Str) (xs : List (Str × CheckStatus))
    → tabs_of ns (tally_all xs no_tally) ≡ map (tab xs) (select (λ n. any (λ p. p.0 == n) xs) ns)
unfolding tabs_of
tabs_of-tally_all [] xs = refl
tabs_of-tally_all (n ∷ ns) xs =
    let t = tally_all xs no_tally in
    let named : shown_status (lookup n t.status_name) ≡ tab_status (within n xs) =
      ap shown_status (no_tally-name n xs) ∙ worst_from-tab_status (within n xs) none in
    rw (no_tally-count n xs, named) (ground (arith, length-within n xs, tabs_of-tally_all ns xs))

-- The tabs are those of the four categories that some check is of, in this order, each with the number
-- of its checks and their worst status, where a pending check counts as up. A tab whose checks are all
-- up has the empty status, which is not that of a check that is up.
pub categories-tab :
    {F : Type 0} (cs : List (CheckState F))
    → categories cs
      ≡ map (tab (tagged cs)) (select (λ n. any (λ p. p.0 == n) (tagged cs)) category_order)
unfolding categories
categories-tab cs = tabs_of-tally_all category_order (tagged cs)
