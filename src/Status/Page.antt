-- ===== src/Status/Page.antt =====
-- internal/status/handler.go: the functions of the page's template, and the HTTP handler. The template
-- itself and the encoding of JSON are parameters.
pub mod Groups
pub mod Tabs
pub mod Serve
use technician.Common.{
  ℕ, ◌+◌, ◌/◌, Bool, true, false, not, ◌&&◌, ◌||◌, Option, List, [], ◌∷◌, ◌++◌, map, ltb, nat_beq,
  if◌then◌else◌, length, any, ◌==◌, nat_eq, Str, str_eq,
}
use technician.Common.Float.{Floats}
use technician.Common.Int.{ℤ, pos, leb_ℤ, ltb_ℤ, int_eq}
use technician.Common.Grouping.{no_groups, group_all, listed, firsts}
use technician.Common.Text.{codes, decimal, itoa, join, joined}
use technician.Config.Kind.{
  CheckType, http, smtp, traceroute, playwright, tcp, dns, icmp, grpc, ntp, tls, udp, bgp,
  domain_expiry, websocket, other, text,
}
use technician.Status.Ring.{Entry}
use technician.Status.Snapshot.{CheckStatus, error, down, pass, warn, failing}
use technician.Status.Snapshot.Compute.{CheckState, BudgetCheck}

pub record DomainGroup (F : Type 0) : Type 0 where
  pub domain : Str
  pub checks : List (CheckState F)

-- The status of a tab, with `none` for the empty text that a missing key gives.
pub record CategoryInfo : Type 0 where
  pub name : Str
  pub status : Option CheckStatus
  pub count : ℕ

-- `categoryForCheckType`
unfoldable pub category_for_check_type : CheckType → Str
category_for_check_type icmp = codes "Network"
category_for_check_type tcp = codes "Network"
category_for_check_type udp = codes "Network"
category_for_check_type dns = codes "Network"
category_for_check_type traceroute = codes "Network"
category_for_check_type http = codes "Web"
category_for_check_type playwright = codes "Web"
category_for_check_type grpc = codes "Services"
category_for_check_type smtp = codes "Services"
category_for_check_type ntp = codes "Services"
category_for_check_type websocket = codes "Services"
category_for_check_type tls = codes "Security"
category_for_check_type bgp = codes "Security"
category_for_check_type domain_expiry = codes "Security"
category_for_check_type (other s) = codes "Other"

-- The formats of package fmt and time: `int(math.Round(x))`, `%.nf` and the layouts of a date.
pub record Display (F : Type 0) : Type 0 where
  pub rounded : F → ℤ
  pub fixed : ℕ → F → Str
  pub clock : ℕ → Str
  pub date : ℕ → Str

-- `relTime`, of the time since, taken exactly and not in float64
unfoldable pub rel_time : ℕ → Str
rel_time since =
    let d = since / 1000000000 in
    if ltb d 60
    then decimal d ++ codes "s ago"
    else if ltb d 3600
    then decimal (d / 60) ++ codes "m ago"
    else if ltb d 86400
    then decimal (d / 3600) ++ codes "h ago"
    else decimal (d / 86400) ++ codes "d ago"

-- `certExpiryClass`
unfoldable pub cert_expiry_class : ℤ → Str
cert_expiry_class days =
    if leb_ℤ days (pos 7)
    then codes "bad"
    else if leb_ℤ days (pos 30)
    then codes "warn"
    else codes "good"

is_pass : BudgetCheck → Bool
is_pass b = elim b.severity [ pass ↦ true | warn ↦ false | failing ↦ false ]

-- `hasViolation`
unfoldable pub has_violation : List BudgetCheck → Bool
unfolding is_pass
has_violation bs = any (λ b. not (is_pass b)) bs

module _ {F : Type 0} (fl : Floats F) where
  -- `fmtMs`
  unfoldable pub fmt_ms : Display F → F → Str
  fmt_ms d ms =
      if fl.less ms (fl.of_ℕ 1000)
      then itoa (d.rounded ms) ++ codes "ms"
      else d.fixed 2 (fl.div ms (fl.of_ℕ 1000)) ++ codes "s"

  abbrev at_most_zero : F → Bool
  at_most_zero x = fl.less x (fl.of_ℕ 0) || fl.equal x (fl.of_ℕ 0)

  -- `barHeight`
  unfoldable pub bar_height : F → F → ℕ
  bar_height ms max_ms =
      let h = fl.to_ℕ (fl.mul (fl.div ms max_ms) (fl.of_ℕ 32)) in
      if at_most_zero max_ms then 4 else if ltb h 4 then 4 else h

  largest : List (Entry F) → F → F
  largest [] m = m
  largest (e ∷ es) m = largest es (if fl.less m e.duration_ms then e.duration_ms else m)

  -- `maxDuration`
  unfoldable pub max_duration : List (Entry F) → F
  unfolding largest
  max_duration es = let m = largest es (fl.of_ℕ 0) in if at_most_zero m then fl.of_ℕ 1 else m

  -- a middle dot between spaces
  abbrev dot : Str
  dot = 0x20 ∷ 0xc2 ∷ 0xb7 ∷ 0x20 ∷ []

  part_if : Bool → List Str → Str
  part_if shown parts = if shown then dot ++ joined parts else []

  -- `barTip`
  unfoldable pub bar_tip : Display F → Entry F → Str
  unfolding part_if
  bar_tip d e = joined (
      d.clock e.timestamp
      ∷ part_if true (itoa (d.rounded e.duration_ms) ∷ codes "ms" ∷ [])
      ∷ part_if (ltb_ℤ (pos 0) e.status_code) (itoa e.status_code ∷ [])
      ∷ part_if (fl.less (fl.of_ℕ 0) e.dns_ms)
          (codes "dns " ∷ itoa (d.rounded e.dns_ms) ∷ codes "ms" ∷ [])
      ∷ part_if (fl.less (fl.of_ℕ 0) e.tls_ms)
          (codes "tls " ∷ itoa (d.rounded e.tls_ms) ∷ codes "ms" ∷ [])
      ∷ part_if (fl.less (fl.of_ℕ 0) e.ttfb_ms)
          (codes "ttfb " ∷ itoa (d.rounded e.ttfb_ms) ∷ codes "ms" ∷ [])
      ∷ part_if (not (fl.equal e.ntp_offset_ms (fl.of_ℕ 0)))
          (codes "offset " ∷ d.fixed 1 e.ntp_offset_ms ∷ codes "ms" ∷ [])
      ∷ part_if (not (e.cert_days_remaining == pos 0) || e.cert_valid) (
          codes "cert "
          ∷ itoa e.cert_days_remaining
          ∷ codes "d"
          ∷ (if e.cert_valid then [] else codes " (invalid)")
          ∷ [])
      ∷ part_if (fl.less (fl.of_ℕ 0) e.icmp_packet_loss)
          (codes "loss " ∷ d.fixed 0 e.icmp_packet_loss ∷ codes "%" ∷ [])
      ∷ part_if (not (e.grpc_status == [])) (e.grpc_status ∷ [])
      ∷ part_if (not (e.error == [])) (e.error ∷ [])
      ∷ [])

-- `fmtDate`
unfoldable pub fmt_date : {F : Type 0} → Display F → ℕ → Str
fmt_date d t = if nat_beq t 0 then [] else d.date t

abbrev pub is_down : CheckStatus → Bool
is_down down = true
is_down _ = false

abbrev pub is_error : CheckStatus → Bool
is_error error = true
is_error _ = false

-- How many checks are down, and how many have an error.
unfoldable pub count_bad : List CheckStatus → ℕ → ℕ → ℕ × ℕ
count_bad [] downs errors = (downs, errors)
count_bad (s ∷ ss) downs errors =
    count_bad ss (if is_down s then downs + 1 else downs)
      (if is_error s then errors + 1 else errors)

-- What a group and a domain show.
pub data GroupStatus : Type 0 where
  group_up group_error group_down group_degraded : GroupStatus

unfoldable pub group_status_of : ℕ → ℕ × ℕ → GroupStatus
group_status_of n (downs, errors) =
    if nat_beq downs 0 && nat_beq errors 0
    then group_up
    else if nat_beq downs 0 && ltb 0 errors
    then group_error
    else if nat_beq downs n
    then group_down
    else group_degraded

unfoldable pub domain_status_of : ℕ → ℕ × ℕ → GroupStatus
domain_status_of n (downs, errors) =
    if ltb 0 downs
    then (if nat_beq downs n then group_down else group_degraded)
    else if ltb 0 errors
    then group_error
    else group_up

module _ {F : Type 0} where
  abbrev pub statuses : List (CheckState F) → List CheckStatus
  statuses cs = map (λ c. c.status) cs

  -- `groupStatus`
  unfoldable pub group_status : List (CheckState F) → GroupStatus
  unfolding group_status_of count_bad
  group_status cs = group_status_of (length cs) (count_bad (statuses cs) 0 0)

  -- `domainStatus`
  unfoldable pub domain_status : List (CheckState F) → GroupStatus
  unfolding domain_status_of count_bad
  domain_status cs = domain_status_of (length cs) (count_bad (statuses cs) 0 0)

  -- the key of `groupByDomain`
  abbrev pub domain_key : CheckState F → Str
  domain_key c = if c.domain == [] then c.name else c.domain

  abbrev pub domain_group : Str → List (CheckState F) → DomainGroup F
  domain_group k cs = record { domain = k; checks = cs }

  -- `groupByDomain`
  unfoldable pub group_by_domain : List (CheckState F) → List (DomainGroup F)
  group_by_domain cs = listed domain_group (group_all domain_key cs no_groups)

  -- `domainTypes`
  unfoldable pub domain_types : List (CheckState F) → Str
  domain_types cs = join (codes ", ") (firsts [] (map (λ c. text c.typ) cs))

  -- `numCategories`
  unfoldable pub num_categories : List (CheckState F) → ℕ
  num_categories cs = length (firsts [] (map (λ c. category_for_check_type c.typ) cs))
