-- ===== src/Status/Persistence/Files/Pruning.antt =====
-- The pruning of the backups removes those older than ninety days, and nothing else.
use technician.Common.{
  ◌≡◌, ◌≢◌, ◌⊎◌, Bool, true, false, ◌&&◌, Option, none, some, List, [], ◌∷◌, ◌++◌, if◌then◌else◌,
  nat_beq, nat_eq, Str, str_eq,
}
use technician.Common.Text.{codes}
use technician.Common.Int.{ℤ, ltb_ℤ}
use technician.Status.Store.{mem}
use technician.Status.Persistence.Files.{Os, backup_day, prune_each}

-- What stands after a prefix.
abbrev pub after_prefix : Str → Str → Option Str
after_prefix [] name = some name
after_prefix (c ∷ p) [] = none
after_prefix (c ∷ p) (x ∷ name) = if nat_beq x c then after_prefix p name else none

module _ {D B : Type 0} (os : Os D B) (path : Str) where
  -- a name in the directory of the file
  abbrev pub beside : Str → Str
  beside name = os.join (os.dir path) name

  -- Whether a name is that of the file, a dot, and a day before an instant.
  abbrev pub is_expired : ℤ → Str → Bool
  is_expired cutoff name = elim (after_prefix (os.base path ++ codes ".") name) [
    | none ↦ false
    | some day ↦ elim (os.parse_day day) [ none ↦ false | some t ↦ ltb_ℤ t cutoff ]
  ]

  -- What pruning relies on for the file of a name: a removal of it that does not fail takes it away,
  -- and the removal of another leaves it.
  pub record IsRemovable (m : Str) : Type 0 where
    pub removed :
        (d : D)
        → (os.remove d (beside m)).1 ≡ none
        → os.read_file (os.remove d (beside m)).0 (beside m) ≡ none
    pub kept :
        (d : D) (name : Str)
        → name ≢ m
        → os.read_file (os.remove d (beside name)).0 (beside m) ≡ os.read_file d (beside m)

  -- the disk after one round of the loop
  abbrev pruned : ℤ → Str → D → D
  pruned cutoff name d = elim (backup_day os path name) [
    | none ↦ d
    | some t ↦ if ltb_ℤ t cutoff then (os.remove d (beside name)).0 else d
  ]

  -- The removal of a listed name fails, on the disk as it is when the loop comes to it.
  abbrev pub HasFailed : ℤ → List Str → D → Str → Type 0
  unfolding prune_each
  HasFailed cutoff names d m =
      (before : List Str) × (after : List Str) × (e : Str) × (names ≡ before ++ m ∷ after)
      × ((os.remove (prune_each os path cutoff before d) (beside m)).1 ≡ some e)

  -- What becomes of the file of a name: it stays as it is, unless it has expired and is listed; then
  -- it is gone, or its removal has failed.
  abbrev pub Becomes : ℤ → List Str → D → Str → Option B → Type 0
  Becomes cutoff names d m after =
      (((is_expired cutoff m && mem m names) ≡ false) × (after ≡ os.read_file d (beside m)))
      ⊎ (((is_expired cutoff m && mem m names) ≡ true)
          × ((after ≡ none) ⊎ HasFailed cutoff names d m))
