-- ===== src/Metrics/Gauges.antt =====
-- internal/metrics/prometheus.go: the gauges and the counter that are registered.
use technician.Common.{List, [], ◌∷◌, nat_eq, Str}
use technician.Common.Text.{codes}

pub data Gauge : Type 0 where
  check_up check_duration http_response_status http_dns http_tls http_connect http_ttfb
        http_transfer http_response_bytes browser_ttfb browser_fcp browser_lcp browser_cls
        browser_inp browser_dom_complete browser_total_transfer browser_resource_count
        har_resource_duration har_resource_bytes budget_violation tcp_conn_duration tcp_tls_duration
        dns_query_duration icmp_packet_loss icmp_avg_rtt ntp_offset_ms ntp_stratum ntp_rtt udp_rtt
        udp_response_bytes ws_connect_duration ws_message_duration tls_cert_expiry_days
        tls_cert_valid bgp_prefix_visible bgp_origin_asn bgp_origin_match bgp_rpki_valid
        domain_expiry_days domain_registered check_infra_error check_degraded
        status_store_write_errors last_run_timestamp :
      Gauge

-- `Name`
unfoldable pub gauge_name : Gauge → Str
gauge_name check_up = codes "technician_check_healthy"
gauge_name check_duration = codes "technician_check_duration_seconds"
gauge_name http_response_status = codes "technician_http_response_status"
gauge_name http_dns = codes "technician_http_dns_seconds"
gauge_name http_tls = codes "technician_http_tls_seconds"
gauge_name http_connect = codes "technician_http_connect_seconds"
gauge_name http_ttfb = codes "technician_http_ttfb_seconds"
gauge_name http_transfer = codes "technician_http_transfer_seconds"
gauge_name http_response_bytes = codes "technician_http_response_bytes"
gauge_name browser_ttfb = codes "technician_browser_ttfb_ms"
gauge_name browser_fcp = codes "technician_browser_fcp_ms"
gauge_name browser_lcp = codes "technician_browser_lcp_ms"
gauge_name browser_cls = codes "technician_browser_cls"
gauge_name browser_inp = codes "technician_browser_inp_ms"
gauge_name browser_dom_complete = codes "technician_browser_dom_complete_ms"
gauge_name browser_total_transfer = codes "technician_browser_total_transfer_bytes"
gauge_name browser_resource_count = codes "technician_browser_resource_count"
gauge_name har_resource_duration = codes "technician_har_resource_duration_ms"
gauge_name har_resource_bytes = codes "technician_har_resource_bytes"
gauge_name budget_violation = codes "technician_budget_violation"
gauge_name tcp_conn_duration = codes "technician_tcp_connect_seconds"
gauge_name tcp_tls_duration = codes "technician_tcp_tls_seconds"
gauge_name dns_query_duration = codes "technician_dns_query_seconds"
gauge_name icmp_packet_loss = codes "technician_icmp_packet_loss_percent"
gauge_name icmp_avg_rtt = codes "technician_icmp_avg_rtt_seconds"
gauge_name ntp_offset_ms = codes "technician_ntp_offset_ms"
gauge_name ntp_stratum = codes "technician_ntp_stratum"
gauge_name ntp_rtt = codes "technician_ntp_rtt_seconds"
gauge_name udp_rtt = codes "technician_udp_rtt_seconds"
gauge_name udp_response_bytes = codes "technician_udp_response_bytes"
gauge_name ws_connect_duration = codes "technician_ws_connect_seconds"
gauge_name ws_message_duration = codes "technician_ws_message_seconds"
gauge_name tls_cert_expiry_days = codes "technician_tls_cert_expiry_days"
gauge_name tls_cert_valid = codes "technician_tls_cert_valid"
gauge_name bgp_prefix_visible = codes "technician_bgp_prefix_visible"
gauge_name bgp_origin_asn = codes "technician_bgp_origin_asn"
gauge_name bgp_origin_match = codes "technician_bgp_origin_match"
gauge_name bgp_rpki_valid = codes "technician_bgp_rpki_valid"
gauge_name domain_expiry_days = codes "technician_domain_expiry_days"
gauge_name domain_registered = codes "technician_domain_registered"
gauge_name check_infra_error = codes "technician_check_infra_error"
gauge_name check_degraded = codes "technician_check_degraded"
gauge_name status_store_write_errors = codes "technician_status_store_write_errors_total"
gauge_name last_run_timestamp = codes "technician_last_run_timestamp_seconds"

abbrev pub site_labels : List Str
site_labels = codes "region" ∷ codes "city" ∷ codes "country" ∷ []

-- The names of the labels.
unfoldable pub gauge_labels : Gauge → List Str
gauge_labels check_up = codes "type" ∷ codes "name" ∷ site_labels
gauge_labels check_duration = codes "type" ∷ codes "name" ∷ site_labels
gauge_labels browser_ttfb = codes "name" ∷ codes "network" ∷ codes "device" ∷ site_labels
gauge_labels browser_fcp = codes "name" ∷ codes "network" ∷ codes "device" ∷ site_labels
gauge_labels browser_lcp = codes "name" ∷ codes "network" ∷ codes "device" ∷ site_labels
gauge_labels browser_cls = codes "name" ∷ codes "network" ∷ codes "device" ∷ site_labels
gauge_labels browser_inp = codes "name" ∷ codes "network" ∷ codes "device" ∷ site_labels
gauge_labels browser_dom_complete = codes "name" ∷ codes "network" ∷ codes "device" ∷ site_labels
gauge_labels browser_total_transfer = codes "name" ∷ codes "network" ∷ codes "device" ∷ site_labels
gauge_labels browser_resource_count = codes "name" ∷ codes "network" ∷ codes "device" ∷ site_labels
gauge_labels har_resource_duration = codes "name" ∷ codes "resource_type" ∷ site_labels
gauge_labels har_resource_bytes = codes "name" ∷ codes "resource_type" ∷ site_labels
gauge_labels budget_violation = codes "name" ∷ codes "metric" ∷ site_labels
gauge_labels check_infra_error = codes "type" ∷ codes "name" ∷ site_labels
gauge_labels check_degraded = codes "type" ∷ codes "name" ∷ site_labels
gauge_labels status_store_write_errors = []
gauge_labels last_run_timestamp = []
gauge_labels _ = codes "name" ∷ site_labels

-- `MustRegister`
abbrev pub registered : List Gauge
registered =
    check_up ∷ check_duration ∷ http_response_status ∷ http_dns ∷ http_tls ∷ http_connect
    ∷ http_ttfb ∷ http_transfer ∷ http_response_bytes ∷ browser_ttfb ∷ browser_fcp ∷ browser_lcp
    ∷ browser_cls ∷ browser_inp ∷ browser_dom_complete ∷ browser_total_transfer
    ∷ browser_resource_count ∷ har_resource_duration ∷ har_resource_bytes ∷ budget_violation
    ∷ tcp_conn_duration ∷ tcp_tls_duration ∷ dns_query_duration ∷ icmp_packet_loss ∷ icmp_avg_rtt
    ∷ ntp_offset_ms ∷ ntp_stratum ∷ ntp_rtt ∷ udp_rtt ∷ udp_response_bytes ∷ ws_connect_duration
    ∷ ws_message_duration ∷ tls_cert_expiry_days ∷ tls_cert_valid ∷ bgp_prefix_visible
    ∷ bgp_origin_asn ∷ bgp_origin_match ∷ bgp_rpki_valid ∷ domain_expiry_days ∷ domain_registered
    ∷ check_infra_error ∷ check_degraded ∷ status_store_write_errors ∷ last_run_timestamp ∷ []
