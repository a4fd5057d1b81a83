-- ===== src/Metrics/Series.antt =====
-- internal/metrics/prometheus.go: the series that a result that is recorded writes.
pub mod Labelled
use technician.Common.{
  ℕ, ◌/◌, ◌%◌, Bool, Option, none, some, List, [], ◌∷◌, ◌++◌, if◌then◌else◌, ◌==◌, nat_eq, Str,
  str_eq, suc,
}
use technician.Common.Int.{ℤ, pos, negsuc, ◌+ℤ◌}
use technician.Common.Duration.{negated}
use technician.Common.Float.{Floats, of_ℤ}
use technician.Common.Maps.{Map, lookup_or, insert}
use technician.Common.Text.{codes, has_prefix}
use technician.Config.Kind.{
  CheckType, text, http, playwright, tcp, dns, icmp, ntp, tls, udp, bgp, domain_expiry, websocket,
}
use technician.Config.Origin.{Origin}
use technician.Check.{Result, WebVitals, HarData, HarEntry}
use technician.Metrics.Gauges.{
  Gauge, check_up, check_duration, http_response_status, http_dns, http_tls, http_connect,
  http_ttfb, http_transfer, http_response_bytes, browser_ttfb, browser_fcp, browser_lcp,
  browser_cls, browser_inp, browser_dom_complete, browser_total_transfer, browser_resource_count,
  har_resource_duration, har_resource_bytes, tcp_conn_duration, tcp_tls_duration,
  dns_query_duration, icmp_packet_loss, icmp_avg_rtt, ntp_offset_ms, ntp_stratum, ntp_rtt, udp_rtt,
  udp_response_bytes, ws_connect_duration, ws_message_duration, tls_cert_expiry_days,
  tls_cert_valid, bgp_prefix_visible, bgp_origin_asn, bgp_origin_match, bgp_rpki_valid,
  domain_expiry_days, domain_registered, check_degraded, last_run_timestamp,
}

-- `g.WithLabelValues(values...).Set(value)`
pub record Write (F : Type 0) : Type 0 where
  pub gauge : Gauge
  pub values : List Str
  pub value : F

-- `labelSet`
pub record LabelSet : Type 0 where
  pub code : Str
  pub city : Str
  pub country : Str

abbrev pub label : Str → Map Str Str → Str
label key labels = lookup_or key [] labels

-- `originLabels`
abbrev pub origin_labels : Option Origin → LabelSet
origin_labels none = record { code = []; city = []; country = [] }
origin_labels (some o) = record { code = o.id; city = o.city; country = o.country }

abbrev pub site : LabelSet → List Str
site l = l.code ∷ l.city ∷ l.country ∷ []

module _ {F : Type 0} where
  -- `siteLabels`
  unfoldable pub site_labels_of : Result F → LabelSet
  site_labels_of r = record {
    code = label (codes "region") r.labels;
    city = label (codes "city") r.labels;
    country = label (codes "country") r.labels;
  }

  abbrev pub set_to : Gauge → List Str → F → Write F
  set_to g values v = record { gauge = g; values = values; value = v }

  -- a gauge that is labelled by the name and the site
  abbrev named : Result F → LabelSet → Gauge → F → Write F
  named r l g v = set_to g (r.name ∷ site l) v

  -- a gauge that is labelled by the profile too
  abbrev profiled : Result F → LabelSet → Gauge → F → Write F
  profiled r l g v =
      set_to g
        (r.name ∷ label (codes "network") r.labels ∷ label (codes "device") r.labels ∷ site l) v

  -- a gauge that is labelled by the type and the name
  abbrev pub typed : Result F → LabelSet → Gauge → F → Write F
  typed r l g v = set_to g (text r.typ ∷ r.name ∷ site l) v

module _ {F : Type 0} (fl : Floats F) where
  abbrev pub one_if : Bool → F
  one_if b = if b then fl.of_ℕ 1 else fl.of_ℕ 0

  -- `d.Seconds()`
  abbrev pub seconds : ℕ → F
  seconds d =
      fl.add (fl.of_ℕ (d / 1000000000)) (fl.div (fl.of_ℕ (d % 1000000000)) (fl.of_ℕ 1000000000))

  -- the same of a duration that may be negative
  abbrev signed_seconds : ℤ → F
  signed_seconds (pos d) = seconds d
  signed_seconds (negsuc d) =
      fl.add (of_ℤ fl (negated (suc d / 1000000000)))
        (fl.div (of_ℤ fl (negated (suc d % 1000000000))) (fl.of_ℕ 1000000000))

  record_http : Result F → LabelSet → List (Write F)
  record_http r l =
      named r l http_response_status (of_ℤ fl r.status_code)
      ∷ named r l http_dns (seconds r.dns_duration)
      ∷ named r l http_tls (seconds r.tls_duration)
      ∷ named r l http_connect (seconds r.conn_duration)
      ∷ named r l http_ttfb (seconds r.ttfb_duration)
      ∷ named r l http_transfer (seconds r.transfer_duration)
      ∷ named r l http_response_bytes (fl.of_ℕ r.response_bytes)
      ∷ []

  -- the loop of `recordHARMetrics` over the entries, for one of the two maps
  resource_type_of : HarEntry F → Str
  resource_type_of e = if e.resource_type == [] then codes "other" else e.resource_type

  durations_by_type : List (HarEntry F) → Map Str F → Map Str F
  unfolding resource_type_of
  durations_by_type [] m = m
  durations_by_type (e ∷ es) m =
      let rt = resource_type_of e in
      durations_by_type es (insert rt (fl.add (lookup_or rt (fl.of_ℕ 0) m) e.duration) m)

  bytes_by_type : List (HarEntry F) → Map Str ℤ → Map Str ℤ
  unfolding resource_type_of
  bytes_by_type [] m = m
  bytes_by_type (e ∷ es) m =
      let rt = resource_type_of e in
      bytes_by_type es (insert rt (lookup_or rt (pos 0) m +ℤ e.transfer_size) m)

  each_type : {A : Type 0} → Result F → LabelSet → Gauge → (A → F) → Map Str A → List (Write F)
  each_type r l g value [] = []
  each_type r l g value ((rt, a) ∷ rest) =
      set_to g (r.name ∷ rt ∷ site l) (value a) ∷ each_type r l g value rest

  record_har : Option (HarData F) → Result F → LabelSet → List (Write F)
  unfolding durations_by_type bytes_by_type each_type
  record_har none r l = []
  record_har (some h) r l =
      each_type r l har_resource_duration (λ d. d) (durations_by_type h.entries [])
      ++ each_type r l har_resource_bytes (of_ℤ fl) (bytes_by_type h.entries [])

  record_vitals : Option (WebVitals F) → Result F → LabelSet → List (Write F)
  record_vitals none r l = []
  record_vitals (some v) r l =
      profiled r l browser_ttfb v.ttfb
        ∷ profiled r l browser_fcp v.fcp
        ∷ profiled r l browser_lcp v.lcp
        ∷ profiled r l browser_cls v.cls
        ∷ (if fl.less (fl.of_ℕ 0) v.inp then profiled r l browser_inp v.inp ∷ [] else [])
      ++ profiled r l browser_dom_complete v.dom_complete ∷ []

  record_transfer : Option (HarData F) → Result F → LabelSet → List (Write F)
  unfolding record_har
  record_transfer none r l = []
  record_transfer (some h) r l =
      profiled r l browser_total_transfer (of_ℤ fl h.total_transfer_bytes)
      ∷ profiled r l browser_resource_count (fl.of_ℕ r.resource_count)
      ∷ record_har (some h) r l

  record_browser : Result F → LabelSet → List (Write F)
  unfolding record_vitals record_transfer
  record_browser r l = record_vitals r.web_vitals r l ++ record_transfer r.har_data r l

  -- the value for an RPKI verdict
  rpki_value : Str → F
  rpki_value status =
      if status == codes "valid"
      then fl.of_ℕ 1
      else if has_prefix status (codes "invalid")
      then fl.of_ℕ 0
      else of_ℤ fl (negsuc 0)

  -- the `switch` on the type, with the functions that it calls
  record_type : CheckType → Result F → LabelSet → List (Write F)
  unfolding record_http record_browser rpki_value
  record_type http r l = record_http r l
  record_type playwright r l = record_browser r l
  record_type tcp r l =
      named r l tcp_conn_duration (seconds r.tcp_conn_duration)
      ∷ named r l tcp_tls_duration (seconds r.tcp_tls_duration)
      ∷ []
  record_type dns r l = named r l dns_query_duration (seconds r.dns_query_time) ∷ []
  record_type icmp r l =
      named r l icmp_packet_loss r.icmp_packet_loss
      ∷ named r l icmp_avg_rtt (seconds r.icmp_avg_rtt)
      ∷ []
  record_type ntp r l =
      named r l ntp_offset_ms r.ntp_offset_ms
      ∷ named r l ntp_stratum (fl.of_ℕ r.ntp_stratum)
      ∷ named r l ntp_rtt (signed_seconds r.ntp_rtt)
      ∷ []
  record_type tls r l =
      named r l tls_cert_expiry_days (of_ℤ fl r.cert_days_remaining)
      ∷ named r l tls_cert_valid (one_if r.cert_valid)
      ∷ []
  record_type udp r l =
      named r l udp_rtt (seconds r.udp_rtt)
      ∷ named r l udp_response_bytes (fl.of_ℕ r.udp_response_bytes)
      ∷ []
  record_type websocket r l =
      named r l ws_connect_duration (seconds r.ws_connect_duration)
      ∷ named r l ws_message_duration (seconds r.ws_message_duration)
      ∷ []
  record_type bgp r l =
      named r l bgp_prefix_visible (one_if r.bgp_prefix_visible)
      ∷ named r l bgp_origin_asn (of_ℤ fl r.bgp_origin_asn)
      ∷ named r l bgp_origin_match (one_if r.bgp_origin_match)
      ∷ named r l bgp_rpki_valid (rpki_value r.bgp_rpki_status)
      ∷ []
  record_type domain_expiry r l =
      named r l domain_expiry_days (of_ℤ fl r.domain_expiry_days)
      ∷ named r l domain_registered (one_if r.domain_registered)
      ∷ []
  record_type _ r l = []

  -- what `RecordResult` writes past the guard; `unix_now` is `time.Now().Unix()`
  unfoldable pub record_admitted : ℕ → Result F → LabelSet → List (Write F)
  unfolding record_type
  record_admitted unix_now r l =
      typed r l check_up (one_if r.success)
        ∷ typed r l check_duration (seconds r.duration)
        ∷ set_to last_run_timestamp [] (fl.of_ℕ unix_now)
        ∷ record_type r.typ r l
      ++ typed r l check_degraded (one_if r.degraded) ∷ []
