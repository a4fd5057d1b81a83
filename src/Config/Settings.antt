-- ===== src/Config/Settings.antt =====
-- internal/config/config.go: the defaults and the validation of `Load`.
pub mod Defaults
pub mod Sound
use technician.Common.{
  ℕ, suc, ◌⊎◌, inl, inr, Bool, not, ◌&&◌, Option, none, some, List, [], ◌∷◌, if◌then◌else◌, any,
  ◌==◌, nat_eq, Str, str_eq,
}
use technician.Common.Int.{ℤ, pos, leb_ℤ}
use technician.Common.Text.{codes}
use technician.Config.Types.{WebhookConfig}

-- Of the settings, those that `Load` gives a default or validates.
pub record Settings : Type 0 where
  pub listen : Str
  pub max_check_cardinality : ℤ
  pub remote_write_url : Str
  pub remote_write_interval : ℤ
  pub driver : Str
  pub mode : Str
  pub server_url : Str
  pub max_browsers : ℤ
  pub persistence_enabled : Bool
  pub retention : ℤ
  pub webhooks : List WebhookConfig

pub data SettingsError : Type 0 where
  webhook_url webhook_type : ℕ → SettingsError
  webhook_event webhook_severity : ℕ → Str → SettingsError
  playwright_server playwright_mode : SettingsError

abbrev pub or_text : Str → Str → Str
or_text s d = if s == [] then d else s

abbrev pub at_least_one : ℤ → ℤ → ℤ
at_least_one n d = if leb_ℤ n (pos 0) then d else n

-- `DefaultMaxCheckCardinality`
abbrev default_max_check_cardinality : ℤ
default_max_check_cardinality = pos 500

-- the defaults of `Load`; durations are nanoseconds
unfoldable pub settings_defaults : Settings → Settings
settings_defaults c = record c {
  listen = or_text c.listen (codes ":9590");
  max_check_cardinality = at_least_one c.max_check_cardinality default_max_check_cardinality;
  remote_write_interval =
      if not (c.remote_write_url == []) && leb_ℤ c.remote_write_interval (pos 0)
      then pos 15000000000
      else c.remote_write_interval;
  driver = or_text c.driver (codes "none");
  mode = or_text c.mode (codes "local");
  max_browsers = at_least_one c.max_browsers (pos 2);
  retention =
      if c.persistence_enabled && leb_ℤ c.retention (pos 0)
      then pos 2592000000000000
      else c.retention;
}

abbrev pub webhook_types : List Str
webhook_types = codes "discord" ∷ codes "slack" ∷ codes "generic" ∷ []

abbrev pub webhook_events : List Str
webhook_events =
    codes "check_down" ∷ codes "check_up" ∷ codes "budget_violation" ∷ codes "cert_expiring" ∷ []

abbrev pub webhook_severities : List Str
webhook_severities = codes "warning" ∷ codes "critical" ∷ []

-- the first text that is not allowed: the inner loops
unfoldable pub first_bad : List Str → List Str → Option Str
first_bad allowed [] = none
first_bad allowed (x ∷ xs) =
    if not (any (λ a. a == x) allowed) then some x else first_bad allowed xs

-- one round of the loop of `validateWebhooks`
unfoldable pub validate_webhook : ℕ → WebhookConfig → Option SettingsError
unfolding first_bad
validate_webhook i wh =
    if wh.url == []
    then some (webhook_url i)
    else if not (wh.typ == []) && not (any (λ a. a == wh.typ) webhook_types)
    then some (webhook_type i)
    else elim (first_bad webhook_events wh.events) [
      | some e ↦ some (webhook_event i e)
      | none ↦ elim (first_bad webhook_severities wh.severities) [
        | some s ↦ some (webhook_severity i s)
        | none ↦ none
      ]
    ]

-- `validateWebhooks`, from webhook `i` on
unfoldable pub validate_webhooks : ℕ → List WebhookConfig → Option SettingsError
unfolding validate_webhook
validate_webhooks i [] = none
validate_webhooks i (wh ∷ whs) = elim (validate_webhook i wh) [
  | some e ↦ some e
  | none ↦ validate_webhooks (suc i) whs
]

-- `validatePlaywright`
unfoldable pub validate_playwright : Str → Str → Option SettingsError
validate_playwright mode server_url =
    if mode == codes "local"
    then none
    else if mode == codes "managed"
    then (if server_url == [] then some playwright_server else none)
    else some playwright_mode

-- the returns of `Load`, in order
abbrev pub finish :
    Settings → Option SettingsError → Option SettingsError → SettingsError ⊎ Settings
finish c (some e) browser = inl e
finish c none (some e) = inl e
finish c none none = inr c

-- `Load` after the file is parsed
unfoldable pub load : Settings → SettingsError ⊎ Settings
unfolding settings_defaults validate_webhooks validate_playwright
load c =
    let c' = settings_defaults c in
    finish c' (validate_webhooks 0 c'.webhooks) (validate_playwright c'.mode c'.server_url)
