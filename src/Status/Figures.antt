-- ===== src/Status/Figures.antt =====
-- internal/status/store.go: the figures that the snapshot shows of a check's entries: its latencies, its
-- timings, its uptime, and how long it has been down.
pub mod Latencies
pub mod Uptime
use technician.Common.{
  ℕ, ◌+◌, ◌-◌, ◌/◌, ◌%◌, Bool, not, ◌&&◌, ◌||◌, Option, none, some, List, [], ◌∷◌, ◌++◌, map, ltb,
  leb, nat_beq, if◌then◌else◌, length, get_elem?, select, nat_eq, Str, str_eq,
}
use technician.Common.Float.{Floats}
use technician.Common.Text.{codes, decimal, joined}
use technician.Status.Ring.{Entry}

pub record Latency (F : Type 0) : Type 0 where
  pub p50 : F
  pub p90 : F
  pub p95 : F
  pub p99 : F

pub record TimingBreakdown (F : Type 0) : Type 0 where
  pub dns_ms : F
  pub tls_ms : F
  pub ttfb_ms : F
  pub transfer_ms : F

-- The sums of the loop of `computeTiming`.
pub record Sums (F : Type 0) : Type 0 where
  pub dns : F
  pub tls : F
  pub ttfb : F
  pub total : F
  pub n : ℕ

abbrev pub counts_as_run : {F : Type 0} → Entry F → Bool
counts_as_run e = e.success && not e.infra_error

-- how many entries count, and how many of them are up
unfoldable pub count_up : {F : Type 0} → List (Entry F) → ℕ → ℕ → ℕ × ℕ
count_up [] up total = (up, total)
count_up (e ∷ es) up total =
    count_up es (if not e.infra_error && e.success then up + 1 else up)
      (if e.infra_error then total else total + 1)

-- an em dash
abbrev pub no_uptime : Str
no_uptime = 0xe2 ∷ 0x80 ∷ 0x94 ∷ []

module _ {F : Type 0} (fl : Floats F) where
  insert_float : F → List F → List F
  insert_float x [] = x ∷ []
  insert_float x (y ∷ ys) = if fl.less y x then y ∷ insert_float x ys else x ∷ y ∷ ys

  -- `sort.Float64s`
  unfoldable pub sort_floats : List F → List F
  unfolding insert_float
  sort_floats [] = []
  sort_floats (x ∷ xs) = insert_float x (sort_floats xs)

  -- between two elements
  interpolate : F → Option F → Option F → Option F
  interpolate frac (some low) (some high) =
      some (fl.add (fl.mul low (fl.sub (fl.of_ℕ 1) frac)) (fl.mul high frac))
  interpolate frac _ _ = none

  -- `percentile`, of `p` hundredths; `none` is an index out of range
  unfoldable pub percentile : List F → ℕ → Option F
  unfolding interpolate
  percentile sorted p =
      let idx = fl.mul (fl.div (fl.of_ℕ p) (fl.of_ℕ 100)) (fl.of_ℕ (length sorted - 1)) in
      let low = fl.to_ℕ idx in
      if leb (length sorted) (low + 1)
      then get_elem? sorted (length sorted - 1)
      else interpolate (fl.sub idx (fl.of_ℕ low)) (get_elem? sorted low)
          (get_elem? sorted (low + 1))

  all_four : Option F → Option F → Option F → Option F → Option (Option (Latency F))
  all_four (some a) (some b) (some c) (some d) =
      some (some (record { p50 = a; p90 = b; p95 = c; p99 = d }))
  all_four _ _ _ _ = none

  unfoldable pub run_times : List (Entry F) → List F
  run_times es = map (λ e. e.duration_ms) (select counts_as_run es)

  -- `computeLatency`: `none` is a panic, `some none` the nil that it returns
  unfoldable pub compute_latency : List (Entry F) → Option (Option (Latency F))
  unfolding run_times sort_floats percentile all_four
  compute_latency es =
      let sorted = sort_floats (run_times es) in
      if ltb (length (run_times es)) 2
      then some none
      else all_four (percentile sorted 50) (percentile sorted 90) (percentile sorted 95)
          (percentile sorted 99)

  abbrev no_sums : Sums F
  no_sums = record { dns = fl.of_ℕ 0; tls = fl.of_ℕ 0; ttfb = fl.of_ℕ 0; total = fl.of_ℕ 0; n = 0 }

  unfoldable pub sum_timing : List (Entry F) → Sums F → Sums F
  sum_timing [] s = s
  sum_timing (e ∷ es) s = sum_timing es (
      if not e.success || e.infra_error || fl.equal e.ttfb_ms (fl.of_ℕ 0) then s else record {
        dns = fl.add s.dns e.dns_ms;
        tls = fl.add s.tls e.tls_ms;
        ttfb = fl.add s.ttfb e.ttfb_ms;
        total = fl.add s.total e.duration_ms;
        n = s.n + 1;
      })

  averages : Sums F → Option (TimingBreakdown F)
  averages s =
      let fn = fl.of_ℕ s.n in
      let transfer = fl.sub (fl.div s.total fn) (fl.div s.ttfb fn) in
      if nat_beq s.n 0
      then none
      else some (record {
        dns_ms = fl.div s.dns fn;
        tls_ms = fl.div s.tls fn;
        ttfb_ms = fl.div s.ttfb fn;
        transfer_ms = if fl.less transfer (fl.of_ℕ 1) then fl.of_ℕ 0 else transfer;
      })

  -- `computeTiming`
  unfoldable pub compute_timing : List (Entry F) → Option (TimingBreakdown F)
  unfolding sum_timing averages
  compute_timing es = averages (sum_timing es no_sums)

  percent_text : (F → Str) → ℕ × ℕ → Str
  percent_text format (up, total) =
      let pct = fl.mul (fl.div (fl.of_ℕ up) (fl.of_ℕ total)) (fl.of_ℕ 100) in
      if nat_beq total 0
      then no_uptime
      else if fl.equal pct (fl.of_ℕ 100)
      then codes "100%"
      else format pct ++ codes "%"

  -- `uptimePercent`; `format` is `%.1f`
  unfoldable pub uptime_percent : (F → Str) → List (Entry F) → Str
  unfolding percent_text count_up
  uptime_percent format [] = no_uptime
  uptime_percent format (e ∷ es) = percent_text format (count_up (e ∷ es) 0 0)

-- `fmtDuration`; the duration is rounded to a second
unfoldable pub fmt_seconds : ℕ → Str
fmt_seconds s =
    if ltb s 60
    then joined (codes "for " ∷ decimal s ∷ codes "s" ∷ [])
    else if ltb s 3600
    then joined (codes "for " ∷ decimal (s / 60) ∷ codes "m" ∷ [])
    else if nat_beq (s / 60 % 60) 0
    then joined (codes "for " ∷ decimal (s / 3600) ∷ codes "h" ∷ [])
    else joined
        (codes "for " ∷ decimal (s / 3600) ∷ codes "h " ∷ decimal (s / 60 % 60) ∷ codes "m" ∷ [])

unfoldable pub fmt_duration : ℕ → Str
unfolding fmt_seconds
fmt_duration d = fmt_seconds ((d + 500000000) / 1000000000)
