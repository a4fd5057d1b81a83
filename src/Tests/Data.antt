-- ===== src/Tests/Data.antt =====
-- Sample values.
use technician.Common.{
  ℕ, zero, suc, Bool, true, false, none, some, List, [], ◌∷◌, ◌++◌, nat_eq, Str, str_eq,
}
use technician.Common.Int.{pos}
use technician.Common.Text.{codes}
use technician.Config.Kind.{http, tls, bgp}
use technician.Config.Origin.{Origin}
use technician.Config.Types.{CheckConfig, RetryPolicy}
use technician.Config.Yaml.{CheckYaml}
use technician.Config.Cases.{base_config}
use technician.Config.Convert.{Platform}
use technician.Check.{Result, new_result}
use technician.Status.Ring.{Ring}
use technician.Status.Store.{Store}
use technician.Notify.Manager.{Manager, Webhook, Event, check_down, critical}
use technician.Budget.{Budget}

abbrev pub frankfurt : Origin
frankfurt = record {
  id = codes "fra";
  city = codes "Frankfurt";
  country = codes "DE";
  platform = codes "vm";
  labels = (codes "city", codes "Berlin") ∷ (codes "team", codes "web") ∷ [];
}

-- A run of the HTTP check "web" at an instant.
abbrev pub web : Bool → ℕ → Result ℕ
web ok now = record (new_result 0 (codes "web") http (some frankfurt) now) {
  success = ok;
  duration = 250000000;
}

-- A run of the TLS check "cert", with the days that are left.
abbrev pub cert : ℕ → ℕ → Result ℕ
cert days now = record (new_result 0 (codes "cert") tls none now) {
  success = true;
  cert_valid = true;
  cert_days_remaining = pos days;
}

abbrev pub empty_ring : Ring ℕ
empty_ring = record {
  name = codes "web";
  typ = http;
  group = [];
  target = [];
  entries = [];
  head = 0;
  full = false;
  down_since = 0;
}

abbrev pub empty : Store ℕ
empty = record {
  checks = [];
  order = [];
  budget_checks = [];
  consecutive_write_fail = 0;
  cached = false;
  history = none;
}

abbrev pub any_hook : Webhook
any_hook = record {
  events = (codes "check_down", true) ∷ (codes "budget_violation", true) ∷ [];
  severities = none;
  cooldown = 1000;
}

abbrev pub new_manager_state : Manager
new_manager_state = record {
  webhooks = any_hook ∷ [];
  check_states = [];
  fail_counts = [];
  notified_down = [];
  budget_states = [];
  cert_states = [];
  last_sent = [];
}

abbrev pub web_down : Event
web_down = record {
  typ = check_down;
  severity = critical;
  check = codes "web";
  check_type = http;
  message = codes "down";
  details = [];
  timestamp = 0;
}

abbrev pub date_text : ℕ → Str
date_text n = codes "2026-01-01"

abbrev pub budgets : List (Budget ℕ)
budgets =
    record {
      check = codes "*";
      thresholds = (codes "duration", 100) ∷ (codes "dns", 5) ∷ [];
      alert_on = [];
    }
    ∷ record { check = codes "web"; thresholds = (codes "duration", 300) ∷ []; alert_on = [] }
    ∷ []

-- A platform on which a URL is its host, with the scheme "ws", and every text is accepted.
abbrev pub plain : Platform
plain = record {
  parse_url = λ s. some (record { scheme = codes "ws"; host = s; hostname = s });
  is_prefix = λ s. true;
  compiles = λ s. true;
  is_abs = λ s. false;
  join = λ a b. a ++ b;
  dir = λ s. s;
  split_host_port = λ s. none;
}

abbrev pub bgp_entry : CheckYaml
bgp_entry = record {
  name = codes "route";
  typ = bgp;
  group = codes "net";
  tags = codes "core" ∷ [];
  schedule = [];
  timeout = pos 0;
  retry = none;
  degraded_after = pos 0;
  url = [];
  method = [];
  expected_status = pos 0;
  headers = [];
  body = [];
  skip_tls = false;
  follow_redirects = false;
  basic_auth = none;
  bearer_token = [];
  proxy = [];
  assertions = [];
  min_tls = [];
  max_tls = [];
  host = [];
  port = pos 0;
  ip_version = [];
  send = [];
  expect_recv = [];
  tls = false;
  start_tls = false;
  username = [];
  password = [];
  domain = [];
  server = [];
  record_type = [];
  expected = [];
  count = pos 0;
  max_hops = pos 0;
  service = [];
  check_expiry = none;
  warn_days = pos 0;
  critical_days = pos 0;
  send_hex = [];
  expect_response = none;
  max_response_bytes = pos 0;
  prefix = codes "203.0.113.0/24";
  expected_origin = pos 64500;
  script = [];
  authenticator = [];
  base_url = [];
  video = false;
  network = [];
  device = [];
}

abbrev pub twice_linear : RetryPolicy
twice_linear = record { count = pos 2; backoff = codes "linear"; delay = 500 }

abbrev pub slow_check : CheckConfig
slow_check = record (base_config bgp_entry) {
  name = codes "web";
  retry = some twice_linear;
  degraded_after = pos 100;
}

-- A check that fails, then succeeds.
abbrev pub flaky : ℕ → Result ℕ
flaky zero = web false 10
flaky (suc n) = web true 20

abbrev pub never : ℕ → Bool
never n = false
