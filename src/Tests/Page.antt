-- ===== src/Tests/Page.antt =====
-- The properties of the snapshot and of the status page at concrete inputs.
use technician.Common.{
  ℕ, ◌≡◌, refl, Bool, true, false, none, some, List, [], ◌∷◌, map, arith, select, any, ◌==◌, nat_eq,
  Str, str_eq,
}
use technician.Common.Int.{pos}
use technician.Common.Float.{whole}
use technician.Common.Grouping.{firsts}
use technician.Common.Maps.{lookup, has_key}
use technician.Common.Text.{codes, decimal}
use technician.Config.Kind.{http, tls, icmp, text}
use technician.Status.Ring.{Entry, Ring}
use technician.Status.Store.{Store, check_key}
use technician.Status.Store.Keys.{IsKeyed}
use technician.Status.Snapshot.{up, down}
use technician.Status.Snapshot.Compute.{CheckState, Snapshot, compute_snapshot}
use technician.Status.Snapshot.Whole.{ShowsAll, compute_snapshot-ShowsAll}
use technician.Status.Cache.{Call, result, written, look, compute, keep}
use technician.Status.Page.{group_by_domain, domain_group}
use technician.Status.Page.Groups.{shown_under, group_by_domain-firsts}
use technician.Status.Page.Tabs.{categories, tagged, category_order}
use technician.Status.Page.Tabs.Shown.{tab, categories-tab}
use technician.Tests.Data.{empty_ring, empty, web}

abbrev two_rings : Store ℕ
two_rings = record empty {
  checks =
      (check_key http (codes "web"), empty_ring) ∷ (check_key tls (codes "cert"), empty_ring) ∷ [];
  order = check_key http (codes "web") ∷ check_key tls (codes "cert") ∷ [];
}

two_rings-IsKeyed : IsKeyed two_rings
unfolding lookup check_key has_key text
two_rings-IsKeyed = record { keyed = λ k. ground arith; distinct = (refl, (refl, tt)) }

compute_snapshot-ShowsAll_example :
    (rs : List (Ring ℕ)) × (snap : Snapshot ℕ) × (map some rs
      ≡ map (λ k. lookup k two_rings.checks) two_rings.order)
    × (compute_snapshot whole decimal 50 two_rings ≡ some snap)
    × ShowsAll rs snap
compute_snapshot-ShowsAll_example =
    compute_snapshot-ShowsAll whole decimal 50 two_rings two_rings-IsKeyed

abbrev state : Str → CheckState ℕ
state name = record {
  name = name;
  typ = http;
  domain = codes "example.org";
  status = up;
  down_since = [];
  uptime = [];
  latency = none;
  timing = none;
  latest = none;
  history = [];
  budget_checks = [];
}

abbrev states : List (CheckState ℕ)
states =
    state (codes "web")
    ∷ (record (state (codes "ping")) { typ = icmp; status = down; domain = [] })
    ∷ state (codes "api")
    ∷ []

categories-tab_example :
    categories states
    ≡ map (tab (tagged states)) (select (λ n. any (λ p. p.0 == n) (tagged states)) category_order)
categories-tab_example = categories-tab states

group_by_domain-firsts_example :
    group_by_domain states
    ≡ map
        (λ k. domain_group k (select (λ c. shown_under c.domain c.name == k) states))
        (firsts [] (map (λ c. shown_under c.domain c.name) states))
group_by_domain-firsts_example = group_by_domain-firsts states

abbrev an_entry : Bool → ℕ → Entry ℕ
an_entry success ms = record {
  success = success;
  infra_error = false;
  duration_ms = ms;
  timestamp = 3;
  error = [];
  status_code = pos 200;
  dns_ms = 1;
  tls_ms = 1;
  ttfb_ms = 2;
  ntp_offset_ms = 0;
  cert_days_remaining = pos 0;
  cert_valid = false;
  cert_expiry = 0;
  icmp_packet_loss = 0;
  grpc_status = [];
}

abbrev entries : List (Entry ℕ)
entries = an_entry true 40 ∷ an_entry false 90 ∷ an_entry true 20 ∷ []

-- A result comes between the computing and the keeping of a snapshot.
abbrev day : List (Call ℕ)
day = look 1 10 ∷ compute 1 11 ∷ result (web true 15) ∷ keep 1 20 ∷ written false ∷ []
