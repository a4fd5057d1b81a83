-- ===== src/Config/Load.antt =====
-- internal/config/config.go: `ResolveChecksPath`, and internal/config/checks.go: `LoadChecks`, of the
-- file system and of yaml.Unmarshal as parameters.
pub mod Ready
use technician.Common.{
  ℕ, suc, ◌-◌, ◌⊎◌, inl, inr, Bool, true, false, not, ◌&&◌, ◌||◌, Option, List, [], ◌∷◌, ◌++◌, map,
  leb, if◌then◌else◌, length, drop, ◌==◌, nat_eq, Str, str_eq,
}
use technician.Common.Text.{codes}
use technician.Config.Yaml.{CheckYaml}
use technician.Config.Types.{CheckConfig}
use technician.Config.Validate.{ConfigError, refused, accepted}
use technician.Config.Convert.{Platform, convert_check}
use technician.Config.Target.{with_defaults}
use technician.Config.Expand.{expand_env_vars}

-- What packages os and yaml answer: the error of a path or whether it is a directory, the names of its
-- entries in order with whether they are directories, the text of a file, and its entries.
pub record Files : Type 0 where
  pub stat : Str → Str ⊎ Bool
  pub read_dir : Str → Str ⊎ List (Str × Bool)
  pub read_file : Str → Str ⊎ Str
  pub unmarshal : Str → Str ⊎ List CheckYaml
  pub lookup_env : Str → Option Str

-- The errors, which the code makes texts: those of the file system, that of a text that does not parse,
-- that of an entry at an index with its name, and that of a file in a directory.
pub data LoadError : Type 0 where
  failed : Str → LoadError
  reading_directory : Str → LoadError
  parsing : Str → Str → LoadError
  entry : Str → ℕ → Str → ConfigError → LoadError
  loading : Str → LoadError → LoadError

pub data Loaded : Type 0 where
  broken : LoadError → Loaded
  loaded : List CheckConfig → Loaded

-- checks that are put before those that are loaded, if there is no error
abbrev pub before : List CheckConfig → Loaded → Loaded
before cs (broken e) = broken e
before cs (loaded more) = loaded (cs ++ more)

-- `strings.HasSuffix`
unfoldable pub has_suffix : Str → Str → Bool
has_suffix s p = leb (length p) (length s) && (drop (length s - length p) s == p)

abbrev pub is_yaml : Str → Bool
is_yaml name = has_suffix name (codes ".yml") || has_suffix name (codes ".yaml")

module _ (p : Platform) (f : Files) where
  -- the loop of `loadChecksFromFile` from an index on
  convert_each : Str → ℕ → List CheckYaml → Loaded
  convert_each path i [] = loaded []
  convert_each path i (r ∷ rs) =
      let rest = convert_each path (suc i) rs in
      elim (convert_check p r path) [
        | refused e ↦ broken (entry path i r.name e)
        | accepted c ↦ before (c ∷ []) rest
      ]

  parsed : Str → Str ⊎ List CheckYaml → Loaded
  unfolding convert_each
  parsed path (inl e) = broken (parsing path e)
  parsed path (inr raw) = convert_each path 0 raw

  file_text : Str → Str ⊎ Str → Loaded
  unfolding parsed
  file_text path (inl e) = broken (failed e)
  file_text path (inr text) = parsed path (f.unmarshal (expand_env_vars f.lookup_env text))

  -- `loadChecksFromFile`
  unfoldable pub load_checks_from_file : Str → Loaded
  unfolding file_text
  load_checks_from_file path = file_text path (f.read_file path)

  -- the loop of `loadChecksFromDir`
  unfoldable pub load_each : Str → List (Str × Bool) → Loaded
  load_each dir [] = loaded []
  load_each dir ((name, is_dir) ∷ entries) =
      let rest = load_each dir entries in
      if is_dir || not (is_yaml name)
      then rest
      else elim (load_checks_from_file (p.join dir name)) [
        | broken e ↦ broken (loading name e)
        | loaded cs ↦ before cs rest
      ]

  dir_entries : Str → Str ⊎ List (Str × Bool) → Loaded
  unfolding load_each
  dir_entries dir (inl e) = broken (reading_directory e)
  dir_entries dir (inr entries) = load_each dir entries

  -- `loadChecksFromDir`
  unfoldable pub load_checks_from_dir : Str → Loaded
  unfolding dir_entries
  load_checks_from_dir dir = dir_entries dir (f.read_dir dir)

  -- the loop over the checks that applies the defaults
  defaulted : Loaded → Loaded
  defaulted (broken e) = broken e
  defaulted (loaded cs) = loaded (map with_defaults cs)

  found_path : Str → Str ⊎ Bool → Loaded
  unfolding load_checks_from_file load_checks_from_dir defaulted
  found_path path (inl e) = broken (failed e)
  found_path path (inr true) = defaulted (load_checks_from_dir path)
  found_path path (inr false) = defaulted (load_checks_from_file path)

  -- `LoadChecks`
  unfoldable pub load_checks : Str → Loaded
  unfolding found_path
  load_checks path = found_path path (f.stat path)

  -- `ResolveChecksPath`
  unfoldable pub resolve_checks_path : Str → Str
  resolve_checks_path config_path =
      let file_path = p.join (p.dir config_path) (codes "checks.yml") in
      elim (f.stat file_path) [
        | inl e ↦ p.join (p.dir config_path) (codes "checks")
        | inr is_dir ↦ file_path
      ]
