-- ===== src/Tests/Config.antt =====
-- The properties of the configuration at concrete inputs.
use technician.Common.{
  ◌≡◌, ◌==◌, refl, true, false, none, some, [], ◌∷◌, if◌then◌else◌, select, every, nat_eq, str_eq,
  List, Str, Option,
}
use technician.Common.Int.{pos, negsuc}
use technician.Common.Text.{codes}
use technician.Config.Types.{CheckConfig}
use technician.Config.Validate.{accepted}
use technician.Config.Cases.{base_config, bgp_config}
use technician.Config.Convert.{convert_check, bgp_error}
use technician.Config.Convert.Shape.{is_accepted, convert_check-accepts}
use technician.Config.Filter.{CheckFilter, Flags, load_filtered, effective_filter}
use technician.Config.Filter.Matching.{loaded, live, wanted, load_filtered-select}
use technician.Config.Settings.{Settings, load}
use technician.Config.Settings.Sound.{is_loaded, is_sound, load-accepts}
use technician.Config.Settings.Defaults.{HasDefaults}
use technician.Config.Expand.{is_letter, is_word, expand_env_vars}
use technician.Config.Expand.Template.{Part, literal, variable}
use technician.Config.Expand.Template.Values.{expand_env_vars-values}
use technician.Tests.Data.{plain, bgp_entry, slow_check}

convert_check-accepts_example :
    is_accepted (convert_check plain (record bgp_entry { expected_origin = negsuc 4 }) []) ≡ false
convert_check-accepts_example =
    convert_check-accepts plain (record bgp_entry { expected_origin = negsuc 4 }) []

abbrev bgp_check : CheckConfig
bgp_check = record (base_config bgp_entry) { bgp = some (bgp_config bgp_entry) }

bgp_check-accepted : convert_check plain bgp_entry [] ≡ accepted bgp_check
unfolding convert_check bgp_error bgp_config
bgp_check-accepted = refl

abbrev no_flags : Flags
no_flags = record { types = []; groups = []; tags = [] }

abbrev core_bgp : CheckFilter
core_bgp = record { types = codes " BGP " ∷ []; groups = []; tags = codes "CORE" ∷ [] }

load_filtered-select_example : loaded (load_filtered no_flags core_bgp (slow_check ∷ [])) ≡ (
    if every live (effective_filter no_flags core_bgp).types
    then some (select (wanted (effective_filter no_flags core_bgp)) (slow_check ∷ []))
    else none)
load_filtered-select_example = load_filtered-select no_flags core_bgp (slow_check ∷ [])

abbrev bare : Settings
bare = record {
  listen = [];
  max_check_cardinality = pos 0;
  remote_write_url = [];
  remote_write_interval = pos 0;
  driver = [];
  mode = [];
  server_url = [];
  max_browsers = pos 0;
  persistence_enabled = true;
  retention = pos 0;
  webhooks = [];
}

load-accepts_example :
    (is_loaded (load bare) ≡ true)
    × (is_sound (load bare) ≡ is_loaded (load bare))
    × HasDefaults bare (load bare)
load-accepts_example = load-accepts bare

abbrev an_env : Str → Option Str
an_env name = if name == codes "HOST" then some (codes "db${PORT}") else none

abbrev parts : List Part
parts =
    literal (codes "url: ")
    ∷ variable (codes "HOST") none
    ∷ literal (codes "/")
    ∷ variable (codes "PATH_1") (some (codes "a:-b"))
    ∷ variable (codes "KEY") none
    ∷ []

expand_env_vars-values_example :
    expand_env_vars an_env (codes "url: ${HOST}/${PATH_1:-a:-b}${KEY}")
    ≡ codes "url: db${PORT}/a:-b${KEY}"
unfolding is_letter is_word
expand_env_vars-values_example = expand_env_vars-values an_env parts refl
