-- ===== src/Config/Settings/Sound.antt =====
-- Which settings `Load` accepts, and what the settings that it returns hold.
use technician.Common.{
  ℕ, suc, ◌≡◌, refl, sym, subst, ◌∙◌, ◌⊎◌, inl, inr, Bool, true, false, not, ◌&&◌, ◌||◌, Option,
  none, some, List, [], ◌∷◌, arith, if◌then◌else◌, any, every, ◌==◌, nat_eq, Str, str_eq,
}
use technician.Common.Int.{ℤ, pos, leb_ℤ, ltb_ℤ}
use technician.Common.Text.{codes}
use technician.Config.Types.{WebhookConfig}
use technician.Config.Settings.Defaults.{AreDefaulted, HasDefaults, settings_defaults-AreDefaulted}
use technician.Config.Settings.{
  Settings, SettingsError, webhook_url, webhook_type, webhook_event, webhook_severity, or_text,
  at_least_one, settings_defaults, webhook_types, webhook_events, webhook_severities, first_bad,
  validate_webhook, validate_webhooks, validate_playwright, finish, load,
}

-- A webhook that `Load` accepts.
abbrev sound_webhook : WebhookConfig → Bool
sound_webhook wh =
    not (wh.url == [])
    && (wh.typ == [] || any (λ a. a == wh.typ) webhook_types)
    && every (λ e. any (λ a. a == e) webhook_events) wh.events
    && every (λ s. any (λ a. a == s) webhook_severities) wh.severities

abbrev sound_mode : Str → Str → Bool
sound_mode mode url = mode == codes "local" || (mode == codes "managed" && not (url == []))

-- Settings that the program can run with.
abbrev sound : Settings → Bool
sound c =
    not (c.listen == [])
    && ltb_ℤ (pos 0) c.max_check_cardinality
    && (c.remote_write_url == [] || ltb_ℤ (pos 0) c.remote_write_interval)
    && not (c.driver == [])
    && sound_mode c.mode c.server_url
    && ltb_ℤ (pos 0) c.max_browsers
    && (not c.persistence_enabled || ltb_ℤ (pos 0) c.retention)
    && every sound_webhook c.webhooks

abbrev pub is_loaded : SettingsError ⊎ Settings → Bool
is_loaded (inl e) = false
is_loaded (inr c) = true

abbrev pub is_sound : SettingsError ⊎ Settings → Bool
is_sound (inl e) = false
is_sound (inr out) = sound out

abbrev succeeds : {A : Type 0} → Option A → Bool
succeeds none = true
succeeds (some e) = false

first_bad-every :
    (allowed xs : List Str)
    → succeeds (first_bad allowed xs) ≡ every (λ x. any (λ a. a == x) allowed) xs
unfolding first_bad
first_bad-every allowed [] = refl
first_bad-every allowed (x ∷ xs) = ground (arith, first_bad-every allowed xs)

webhook_guards :
    (a b : Bool) (e s : Option Str) (i : ℕ)
    → succeeds (
        if a then some (webhook_url i) else if b then some (webhook_type i) else elim e [
          | some x ↦ some (webhook_event i x)
          | none ↦ elim s [ some y ↦ some (webhook_severity i y) | none ↦ none ]
        ])
      ≡ (not a && not b && succeeds e && succeeds s)
webhook_guards true b e s i = refl
webhook_guards false true e s i = refl
webhook_guards false false (some x) s i = refl
webhook_guards false false none (some y) i = refl
webhook_guards false false none none i = refl

type_guard : (a b : Bool) → not (not a && not b) ≡ (a || b)
type_guard true b = refl
type_guard false b = ground arith

validate_webhook_sound :
    (i : ℕ) (wh : WebhookConfig) → succeeds (validate_webhook i wh) ≡ sound_webhook wh
unfolding validate_webhook
validate_webhook_sound i wh =
    webhook_guards (wh.url == []) (not (wh.typ == []) && not (any (λ a. a == wh.typ) webhook_types))
      (first_bad webhook_events wh.events) (first_bad webhook_severities wh.severities) i
    ∙ rw
        (
          type_guard (wh.typ == []) (any (λ a. a == wh.typ) webhook_types),
          first_bad-every webhook_events wh.events,
          first_bad-every webhook_severities wh.severities,
        )
        refl

succeeds-or :
    (o rest : Option SettingsError)
    → succeeds (elim o [ some e ↦ some e | none ↦ rest ])
      ≡ (if succeeds o then succeeds rest else false)
succeeds-or none rest = refl
succeeds-or (some e) rest = refl

validate_webhooks_sound :
    (i : ℕ) (whs : List WebhookConfig)
    → succeeds (validate_webhooks i whs) ≡ every sound_webhook whs
unfolding validate_webhooks
validate_webhooks_sound i [] = refl
validate_webhooks_sound i (wh ∷ whs) =
    rw (← validate_webhook_sound i wh, ← validate_webhooks_sound (suc i) whs)
      (succeeds-or (validate_webhook i wh) (validate_webhooks (suc i) whs))

validate_playwright_sound :
    (mode url : Str) → succeeds (validate_playwright mode url) ≡ sound_mode mode url
unfolding validate_playwright
validate_playwright_sound mode url = ground arith

load_parts :
    (c' out : Settings) (hooks browser : Option SettingsError)
    → finish c' hooks browser ≡ inr out
    → (c' ≡ out) × (succeeds hooks ≡ true) × (succeeds browser ≡ true)
load_parts c' out none none h = ground arith
load_parts c' out none (some e) h = ground arith
load_parts c' out (some e) browser h = ground arith

at_least_one-positive : (n d : ℤ) → ltb_ℤ (pos 0) d ≡ true → ltb_ℤ (pos 0) (at_least_one n d) ≡ true
at_least_one-positive n d h = ground arith

or_text-present : (s d : Str) → not (d == []) ≡ true → not (or_text s d == []) ≡ true
or_text-present s d h = ground arith

default_when :
    (b : Bool) (n d : ℤ)
    → ltb_ℤ (pos 0) d ≡ true
    → (not b || ltb_ℤ (pos 0) (if b && leb_ℤ n (pos 0) then d else n)) ≡ true
default_when true n d h = ground arith
default_when false n d h = refl

default_unless :
    (b : Bool) (n d : ℤ)
    → ltb_ℤ (pos 0) d ≡ true
    → (b || ltb_ℤ (pos 0) (if not b && leb_ℤ n (pos 0) then d else n)) ≡ true
default_unless true n d h = refl
default_unless false n d h = ground arith

all_of :
    (a b c d e f g h : Bool)
    → a ≡ true
    → b ≡ true
    → c ≡ true
    → d ≡ true
    → e ≡ true
    → f ≡ true
    → g ≡ true
    → h ≡ true
    → (a && b && c && d && e && f && g && h) ≡ true
all_of a b c d e f g h i j k l m n o p = cc

finish-accepts :
    (c : Settings) (hooks browser : Option SettingsError)
    → is_loaded (finish c hooks browser) ≡ (succeeds hooks && succeeds browser)
finish-accepts c none none = refl
finish-accepts c none (some e) = refl
finish-accepts c (some e) browser = refl

load-is_loaded :
    (c : Settings)
    → is_loaded (load c)
      ≡ (every sound_webhook c.webhooks && sound_mode (or_text c.mode (codes "local")) c.server_url)
unfolding load
load-is_loaded c =
    let c' = settings_defaults c in
    finish-accepts c' (validate_webhooks 0 c'.webhooks) (validate_playwright c'.mode c'.server_url)
    ∙ rw (validate_webhooks_sound 0 c'.webhooks, validate_playwright_sound c'.mode c'.server_url)
        refl

load-sound : (c out : Settings) → load c ≡ inr out → sound out ≡ true
unfolding load
load-sound c out h =
    let c' = settings_defaults c in
    let (same, hooks, browser) =
      load_parts c' out (validate_webhooks 0 c'.webhooks)
        (validate_playwright c'.mode c'.server_url) h in
    subst (λ s. sound s ≡ true) same
      (all_of _ _ _ _ _ _ _ _ (or_text-present c.listen (codes ":9590") refl)
        (at_least_one-positive c.max_check_cardinality (pos 500) refl)
        (default_unless (c.remote_write_url == []) c.remote_write_interval (pos 15000000000) refl)
        (or_text-present c.driver (codes "none") refl)
        (sym (validate_playwright_sound c'.mode c'.server_url) ∙ browser)
        (at_least_one-positive c.max_browsers (pos 2) refl)
        (default_when c.persistence_enabled c.retention (pos 2592000000000000) refl)
        (sym (validate_webhooks_sound 0 c'.webhooks) ∙ hooks))

is_sound-loaded :
    (c : Settings) (r : SettingsError ⊎ Settings) → load c ≡ r → is_sound r ≡ is_loaded r
is_sound-loaded c (inl e) h = refl
is_sound-loaded c (inr out) h = load-sound c out h

load-AreDefaulted : (c out : Settings) → load c ≡ inr out → AreDefaulted c out
unfolding load
load-AreDefaulted c out h =
    let c' = settings_defaults c in
    let (same, hooks, browser) =
      load_parts c' out (validate_webhooks 0 c'.webhooks)
        (validate_playwright c'.mode c'.server_url) h in
    subst (AreDefaulted c) same (settings_defaults-AreDefaulted c)

HasDefaults-loaded : (c : Settings) (r : SettingsError ⊎ Settings) → load c ≡ r → HasDefaults c r
HasDefaults-loaded c (inl e) h = tt
HasDefaults-loaded c (inr out) h = load-AreDefaulted c out h

-- `Load` accepts the settings exactly when every webhook is sound, and the browser mode, with its
-- default, is local, or managed with the address of a server. What it returns then is sound, has the
-- default of each setting that the file leaves out or that is not positive, and is otherwise the file's.
pub load-accepts :
    (c : Settings)
    → (is_loaded (load c) ≡ (
        every sound_webhook c.webhooks && sound_mode (or_text c.mode (codes "local")) c.server_url))
      × (is_sound (load c) ≡ is_loaded (load c))
      × HasDefaults c (load c)
load-accepts c =
    (load-is_loaded c, is_sound-loaded c (load c) refl, HasDefaults-loaded c (load c) refl)
