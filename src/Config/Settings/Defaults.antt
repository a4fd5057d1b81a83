-- ===== src/Config/Settings/Defaults.antt =====
-- The defaults that `Load` gives, each written out.
use technician.Common.{
  zero, suc, ◌≡◌, refl, ◌⊎◌, inl, inr, Bool, true, false, not, ◌&&◌, [], ◌∷◌, arith, if◌then◌else◌,
  ◌==◌, nat_eq, Str, str_eq,
}
use technician.Common.Int.{ℤ, pos, negsuc, leb_ℤ}
use technician.Common.Text.{codes}
use technician.Config.Settings.{Settings, SettingsError, or_text, at_least_one, settings_defaults}

-- What a setting is where the file leaves it out, or has nothing of use.
abbrev pub filled : {A : Type 0} → Bool → A → A → A
filled true d x = d
filled false d x = x

abbrev pub is_blank : Str → Bool
is_blank [] = true
is_blank (b ∷ s) = false

abbrev pub is_below_one : ℤ → Bool
is_below_one (pos zero) = true
is_below_one (pos (suc n)) = false
is_below_one (negsuc n) = true

-- The default of each setting, durations in nanoseconds; all else is as the file has it.
abbrev pub AreDefaulted : Settings → Settings → Type 0
AreDefaulted c out =
    (out.listen ≡ filled (is_blank c.listen) (codes ":9590") c.listen)
    × (out.max_check_cardinality
        ≡ filled (is_below_one c.max_check_cardinality) (pos 500) c.max_check_cardinality)
    × (out.remote_write_url ≡ c.remote_write_url)
    × (out.remote_write_interval
        ≡ filled (not (is_blank c.remote_write_url) && is_below_one c.remote_write_interval)
            (pos 15000000000) c.remote_write_interval)
    × (out.driver ≡ filled (is_blank c.driver) (codes "none") c.driver)
    × (out.mode ≡ filled (is_blank c.mode) (codes "local") c.mode)
    × (out.server_url ≡ c.server_url)
    × (out.max_browsers ≡ filled (is_below_one c.max_browsers) (pos 2) c.max_browsers)
    × (out.persistence_enabled ≡ c.persistence_enabled)
    × (out.retention
        ≡ filled (c.persistence_enabled && is_below_one c.retention) (pos 2592000000000000)
            c.retention)
    × (out.webhooks ≡ c.webhooks)

abbrev pub HasDefaults : Settings → SettingsError ⊎ Settings → Type 0
HasDefaults c (inl e) = Unit {0}
HasDefaults c (inr out) = AreDefaulted c out

or_text-filled : (s d : Str) → or_text s d ≡ filled (is_blank s) d s
or_text-filled [] d = refl
or_text-filled (b ∷ s) d = refl

at_least_one-filled : (n d : ℤ) → at_least_one n d ≡ filled (is_below_one n) d n
at_least_one-filled (pos zero) d = refl
at_least_one-filled (pos (suc n)) d = ground arith
at_least_one-filled (negsuc n) d = ground arith

when-filled :
    (b : Bool) (n d : ℤ)
    → (if b && leb_ℤ n (pos 0) then d else n) ≡ filled (b && is_below_one n) d n
when-filled true n d = at_least_one-filled n d
when-filled false n d = refl

unless-filled :
    (s : Str) (n d : ℤ)
    → (if not (s == []) && leb_ℤ n (pos 0) then d else n)
      ≡ filled (not (is_blank s) && is_below_one n) d n
unless-filled [] n d = refl
unless-filled (b ∷ s) n d = at_least_one-filled n d

pub settings_defaults-AreDefaulted : (c : Settings) → AreDefaulted c (settings_defaults c)
unfolding settings_defaults
settings_defaults-AreDefaulted c = (
  or_text-filled c.listen (codes ":9590"),
  at_least_one-filled c.max_check_cardinality (pos 500),
  refl,
  unless-filled c.remote_write_url c.remote_write_interval (pos 15000000000),
  or_text-filled c.driver (codes "none"),
  or_text-filled c.mode (codes "local"),
  refl,
  at_least_one-filled c.max_browsers (pos 2),
  refl,
  when-filled c.persistence_enabled c.retention (pos 2592000000000000),
  refl,
)
