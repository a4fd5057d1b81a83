-- ===== src/Status/Page/Tabs.antt =====
-- internal/status/handler.go: `categories`, the tabs of the page.
pub mod Shown
use technician.Common.{
  ℕ, ◌+◌, Option, none, some, List, [], ◌∷◌, map, ltb, if◌then◌else◌, nat_eq, Str, str_eq,
}
use technician.Common.Maps.{Map, insert, lookup, lookup_or}
use technician.Common.Text.{codes}
use technician.Status.Snapshot.{CheckStatus, pending, up, error, down}
use technician.Status.Snapshot.Compute.{CheckState}
use technician.Status.Page.{CategoryInfo, category_for_check_type}

-- The maps of the loop.
pub record Tally : Type 0 where
  pub counts : Map Str ℕ
  pub status_prio : Map Str ℕ
  pub status_name : Map Str CheckStatus

abbrev pub no_tally : Tally
no_tally = record { counts = []; status_prio = []; status_name = [] }

-- `prio`; no check is degraded
abbrev pub prio : CheckStatus → ℕ
prio up = 0
prio pending = 1
prio error = 2
prio down = 4

-- one round of the loop
unfoldable pub tally_check : Str → CheckStatus → Tally → Tally
tally_check cat s t =
    let counts' = insert cat (lookup_or cat 0 t.counts + 1) t.counts in
    if ltb (lookup_or cat 0 t.status_prio) (prio s)
    then record {
      counts = counts';
      status_prio = insert cat (prio s) t.status_prio;
      status_name = insert cat s t.status_name;
    }
    else record t { counts = counts' }

unfoldable pub tally_all : List (Str × CheckStatus) → Tally → Tally
unfolding tally_check
tally_all [] t = t
tally_all ((cat, s) ∷ rest) t = tally_all rest (tally_check cat s t)

abbrev pub category_order : List Str
category_order = codes "Network" ∷ codes "Web" ∷ codes "Services" ∷ codes "Security" ∷ []

-- a pending tab is shown as up; `none` is the empty text of a missing key
abbrev pub shown_status : Option CheckStatus → Option CheckStatus
shown_status none = none
shown_status (some pending) = some up
shown_status (some s) = some s

unfoldable pub tabs_of : List Str → Tally → List CategoryInfo
tabs_of [] t = []
tabs_of (n ∷ ns) t =
    if ltb 0 (lookup_or n 0 t.counts)
    then (record {
      name = n;
      status = shown_status (lookup n t.status_name);
      count = lookup_or n 0 t.counts;
    })
      ∷ tabs_of ns t
    else tabs_of ns t

module _ {F : Type 0} where
  abbrev pub tagged : List (CheckState F) → List (Str × CheckStatus)
  tagged cs = map (λ c. (category_for_check_type c.typ, c.status)) cs

  -- `categories`
  unfoldable pub categories : List (CheckState F) → List CategoryInfo
  unfolding tabs_of tally_all
  categories cs = tabs_of category_order (tally_all (tagged cs) no_tally)
