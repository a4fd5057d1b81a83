-- ===== src/Status/Persistence/Files.antt =====
-- internal/status/store.go: the file of the store, its saving, its daily backups and its loading. The
-- file system and JSON are parameters, and so are the bytes of a file, which are only copied.
pub mod Atomic
pub mod Pruning
use technician.Common.{
  ℕ, ◌⊎◌, inl, inr, Bool, true, false, Option, none, some, List, [], ◌∷◌, ◌++◌, if◌then◌else◌,
  length, drop, ◌==◌, nat_eq, Str, str_eq,
}
use technician.Common.Duration.{sub_ℕ}
use technician.Common.Int.{ℤ, ltb_ℤ}
use technician.Common.Order.{str_less}
use technician.Common.Text.{codes, has_prefix}
use technician.Status.Store.{Store, empty_store, record_write_result}
use technician.Status.Persistence.{PersistedStore, persisted, load_data}

-- What packages os, filepath and time do on disks of type `D`, with files of type `B`: a call that may fail gives the disk
-- that it leaves, with its error. `parse_day` is `time.Parse` and `day_text` `Format` of the layout
-- "20060102".
pub record Os (D B : Type 0) : Type 0 where
  pub read_file : D → Str → Option B
  pub mkdir_all : D → Str → D × Option Str
  pub write_file : D → Str → B → D × Option Str
  pub rename : D → Str → Str → D × Option Str
  pub stat : D → Str → Bool
  pub remove : D → Str → D × Option Str
  pub read_dir : D → Str → Option (List Str)
  pub dir : Str → Str
  pub base : Str → Str
  pub join : Str → Str → Str
  pub parse_day : Str → Option ℤ
  pub day_text : ℕ → Str

-- `json.Marshal`, with its error on the left, and `json.Unmarshal`, where it succeeds. `live` is what
-- marshalling reads of a value: the slices of its entries may be those of the rings, which `Push` may
-- write as soon as `save` has released the lock.
pub record Json (P B : Type 0) : Type 0 where
  pub marshal : P → Str ⊎ B
  pub unmarshal : B → Option P
  pub live : P → P

-- `err == nil`
abbrev pub is_nil : Option Str → Bool
is_nil none = true
is_nil (some e) = false

-- `backupRetention`, 90 days
abbrev pub backup_retention : ℕ
backup_retention = 7776000000000000

-- `tmp`
abbrev pub tmp_path : Str → Str
tmp_path path = path ++ codes ".tmp"

module _ {D B : Type 0} (os : Os D B) (path : Str) where
  renamed : D × Option Str → D × Option Str
  renamed (d, some e) = (d, some (codes "rename status store: " ++ e))
  renamed (d, none) = (d, none)

  wrote : D × Option Str → D × Option Str
  unfolding renamed
  wrote (d, some e) = (d, some (codes "write status store: " ++ e))
  wrote (d, none) = renamed (os.rename d (tmp_path path) path)

  made : B → D × Option Str → D × Option Str
  unfolding wrote
  made text (d, some e) = (d, some (codes "create status store directory: " ++ e))
  made text (d, none) = wrote (os.write_file d (tmp_path path) text)

  -- `base` of the backups' names
  abbrev pub backup_base : Str
  backup_base = os.base path ++ b'.' ∷ []

  -- the day of a backup's name
  unfoldable pub backup_day : Str → Option ℤ
  backup_day name =
      if has_prefix name backup_base then os.parse_day (drop (length backup_base) name) else none

  -- the loop of `pruneBackups`
  unfoldable pub prune_each : ℤ → List Str → D → D
  unfolding backup_day
  prune_each cutoff [] d = d
  prune_each cutoff (name ∷ names) d = prune_each cutoff names (elim (backup_day name) [
    | none ↦ d
    | some t ↦ if ltb_ℤ t cutoff then (os.remove d (os.join (os.dir path) name)).0 else d
  ])

  -- `pruneBackups`
  unfoldable pub prune_backups : ℕ → D → D
  unfolding prune_each
  prune_backups now d = elim (os.read_dir d (os.dir path)) [
    | none ↦ d
    | some names ↦ prune_each (sub_ℕ now backup_retention) names d
  ]

  backed_up : ℕ → D × Option Str → D
  unfolding prune_backups
  backed_up now (d, some e) = d
  backed_up now (d, none) = prune_backups now d

  -- `SaveBackup`
  unfoldable pub save_backup : ℕ → D → D
  unfolding backed_up
  save_backup now d =
      let backup = path ++ b'.' ∷ os.day_text now in
      if path == [] then d else elim (os.read_file d path) [
        | none ↦ d
        | some src ↦ if os.stat d backup then d else backed_up now (os.write_file d backup src)
      ]

  -- the loop of `latestBackup`
  unfoldable pub latest_from : List Str → Str → Str
  unfolding backup_day
  latest_from [] latest = latest
  latest_from (name ∷ names) latest = latest_from names (elim (backup_day name) [
    | none ↦ latest
    | some t ↦ if str_less latest name then name else latest
  ])

  -- `latestBackup`, with `none` for nil
  unfoldable pub latest_backup : D → Option B
  unfolding latest_from
  latest_backup d = elim (os.read_dir d (os.dir path)) [
    | none ↦ none
    | some names ↦
        let latest = latest_from names [] in
        if latest == [] then none else os.read_file d (os.join (os.dir path) latest)
  ]

module _ {D B F : Type 0} (os : Os D B) (json : Json (PersistedStore F) B) (path : Str) where
  marshalled : D → Str ⊎ B → D × Option Str
  unfolding made
  marshalled d (inl e) = (d, some (codes "marshal status store: " ++ e))
  marshalled d (inr text) = made os path text (os.mkdir_all d (os.dir path))

  -- `save`, with the disk that it leaves and its error
  unfoldable pub save : Store F → D → D × Option Str
  unfolding marshalled
  save s d = marshalled d (json.marshal (json.live (persisted s)))

  -- `Save`
  unfoldable pub save_counted : Store F → D → Store F × D × Option Str
  unfolding save
  save_counted s d =
      if path == []
      then (s, d, none)
      else let (d', e) = save s d in (record_write_result s (is_nil e), d', e)

  -- `tryLoadData`, with `none` for false
  try_load_data : Store F → B → Option (Store F)
  try_load_data s text = elim (json.unmarshal text) [
    | none ↦ none
    | some raw ↦ some (load_data s raw)
  ]

  -- what `load` does where the text does not parse
  or_backup : Store F → D → Option (Store F) → Store F
  unfolding latest_backup try_load_data
  or_backup s d (some s') = s'
  or_backup s d none = elim (latest_backup os path d) [
    | none ↦ s
    | some text ↦ elim (try_load_data s text) [ none ↦ s | some s' ↦ s' ]
  ]

  -- what `load` does with the text of the file, or of the latest backup if the file cannot be read
  load_text : Store F → D → Option B → Store F
  unfolding or_backup
  load_text s d none = s
  load_text s d (some text) = or_backup s d (try_load_data s text)

  -- `load`
  unfoldable pub load : Store F → D → Store F
  unfolding load_text
  load s d =
      load_text s d
        (elim (os.read_file d path) [ none ↦ latest_backup os path d | some text ↦ some text ])

  -- `NewStore`, without the service and the origin
  unfoldable pub new_store : D → Store F
  unfolding load
  new_store d = if path == [] then empty_store else load empty_store d
