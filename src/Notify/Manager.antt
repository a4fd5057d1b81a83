-- ===== src/Notify/Manager.antt =====
-- internal/notify/notify.go: `Manager`, which turns results into events and events into sends.
-- The lock makes each method one step. A send is the index of its webhook: the goroutine that
-- delivers it is in Notify/Delivery, and the HTTP payloads are not modelled.
use technician.Common.{
  ℕ, suc, ◌+◌, Bool, true, false, not, ◌&&◌, ◌||◌, Option, none, some, List, [], ◌∷◌, ◌++◌, map,
  ltb, if◌then◌else◌, nat_eq, Str, str_eq,
}
use technician.Common.Int.{pos, pos_part, ltb_ℤ}
use technician.Common.Maps.{Map, lookup, insert, lookup_or}
use technician.Common.Text.{codes, decimal}
use technician.Config.Kind.{CheckType}
use technician.Config.Types.{WebhookConfig}

pub data EventType : Type 0 where
  check_down check_up budget_violation cert_expiring : EventType

-- `string(t)`
unfoldable pub event_text : EventType → Str
event_text check_down = codes "check_down"
event_text check_up = codes "check_up"
event_text budget_violation = codes "budget_violation"
event_text cert_expiring = codes "cert_expiring"

-- `unset` is the empty string.
pub data Severity : Type 0 where
  unset warning critical : Severity

unfoldable pub severity_text : Severity → Str
severity_text unset = []
severity_text warning = codes "warning"
severity_text critical = codes "critical"

pub record Event : Type 0 where
  pub typ : EventType
  pub severity : Severity
  pub check : Str
  pub check_type : CheckType
  pub message : Str
  pub details : Map Str Str
  pub timestamp : ℕ

-- The sender is left out.
pub record Webhook : Type 0 where
  pub events : Map Str Bool
  pub severities : Option (Map Str Bool)
  pub cooldown : ℕ

-- The wait group, the semaphore and the lock are left out.
pub record Manager : Type 0 where
  pub webhooks : List Webhook
  pub check_states : Map Str Bool
  pub fail_counts : Map Str ℕ
  pub notified_down : Map Str Bool
  pub budget_states : Map Str Bool
  pub cert_states : Map Str Severity
  pub last_sent : Map Str ℕ

abbrev pub consecutive_fail_threshold : ℕ
consecutive_fail_threshold = 3

set_all : List Str → Map Str Bool → Map Str Bool
set_all [] m = m
set_all (k ∷ ks) m = set_all ks (insert k true m)

abbrev all_events : List Str
all_events =
    codes "check_down" ∷ codes "check_up" ∷ codes "budget_violation" ∷ codes "cert_expiring" ∷ []

-- five minutes
abbrev pub default_cooldown : ℕ
default_cooldown = 300000000000

or_default : List Str → List Str → List Str
or_default [] d = d
or_default (x ∷ xs) d = x ∷ xs

severity_filter : List Str → Option (Map Str Bool)
unfolding set_all
severity_filter [] = none
severity_filter (s ∷ ss) = some (set_all (s ∷ ss) [])

-- one round of the loop of `NewManager`
unfoldable pub new_webhook : WebhookConfig → Webhook
unfolding set_all or_default severity_filter
new_webhook wc = record {
  events = set_all (or_default wc.events all_events) [];
  severities = severity_filter wc.severities;
  cooldown = if ltb_ℤ (pos 0) wc.cooldown then pos_part wc.cooldown else default_cooldown;
}

manager_of : List Webhook → Manager
manager_of ws = record {
  webhooks = ws;
  check_states = [];
  fail_counts = [];
  notified_down = [];
  budget_states = [];
  cert_states = [];
  last_sent = [];
}

-- `NewManager`, with `none` for its nil result
unfoldable pub new_manager : List WebhookConfig → Option Manager
unfolding new_webhook manager_of
new_manager [] = none
new_manager (c ∷ cs) = some (manager_of (map new_webhook (c ∷ cs)))

is_unset : Severity → Bool
is_unset unset = true
is_unset _ = false

-- whether the filters of a webhook let an event through
unfoldable pub wants : Webhook → Event → Bool
unfolding is_unset
wants w ev = lookup_or (event_text ev.typ) false w.events && elim w.severities [
  | none ↦ true
  | some allowed ↦ is_unset ev.severity || lookup_or (severity_text ev.severity) false allowed
]

-- `fmt.Sprintf("%d:%s:%s", i, event.Check, event.Type)`
unfoldable pub cooldown_key : ℕ → Str → EventType → Str
cooldown_key i check typ = decimal i ++ b':' ∷ (check ++ b':' ∷ event_text typ)

-- whether webhook `i` sends the event at the instant `now`
unfoldable pub sends : ℕ → Webhook → ℕ → Event → Map Str ℕ → Bool
unfolding wants
sends i w now ev last_sent =
    wants w ev && elim (lookup (cooldown_key i ev.check ev.typ) last_sent) [
      | none ↦ true
      | some last ↦ not (ltb now (last + w.cooldown))
    ]

-- the loop of `dispatch`, from webhook `i` on: `lastSent` and the webhooks that send
unfoldable pub dispatch_from : ℕ → List Webhook → ℕ → Event → Map Str ℕ → Map Str ℕ × List ℕ
dispatch_from i [] now ev m = (m, [])
dispatch_from i (w ∷ ws) now ev m =
    let here = sends i w now ev m in
    let (m', is) =
      dispatch_from (suc i) ws now ev
        (if here then insert (cooldown_key i ev.check ev.typ) now m else m) in
    (m', if here then i ∷ is else is)

-- `dispatch`
unfoldable pub dispatch : ℕ → Event → Manager → Manager × List ℕ
unfolding dispatch_from
dispatch now ev m =
    let (sent, is) = dispatch_from 0 m.webhooks now ev m.last_sent in
    (record m { last_sent = sent }, is)
