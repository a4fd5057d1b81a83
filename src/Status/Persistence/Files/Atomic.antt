-- ===== src/Status/Persistence/Files/Atomic.antt =====
-- A save that fails leaves the file as it was, and one that succeeds is what a restart reads.
use technician.Common.{
  ◌≡◌, refl, sym, ap, subst, ◌∙◌, ◌≢◌, ◌⊎◌, inl, inr, Option, none, some, [], arith, nat_eq, Str,
  str_beq_iff, str_eq,
}
use technician.Common.Maps.{lookup}
use technician.Status.Store.{Store, empty_store}
use technician.Status.Store.History.{HasValidRings, history_of}
use technician.Status.Store.Down.{down_of}
use technician.Status.Persistence.{PersistedStore, persisted, load_data}
use technician.Status.Persistence.RoundTrip.{labels_of, restarted, restarted-history}
use technician.Status.Persistence.Files.{
  Os, Json, tmp_path, renamed, wrote, made, marshalled, save, try_load_data, or_backup, load_text,
  load, new_store,
}

-- What a save relies on: making directories and writing the temporary file leave the file as it is,
-- a file that is written without an error has what was written, and a rename puts the temporary file
-- in the file's place or fails and leaves it.
pub record IsPosix {D B : Type 0} (os : Os D B) (path : Str) : Type 0 where
  pub mkdir_keeps : (d : D) (n : Str) → os.read_file (os.mkdir_all d n).0 path ≡ os.read_file d path
  pub write_keeps :
      (d : D) (text : B)
      → os.read_file (os.write_file d (tmp_path path) text).0 path ≡ os.read_file d path
  pub write_done :
      (d : D) (text : B)
      → (os.write_file d (tmp_path path) text).1 ≡ none
      → os.read_file (os.write_file d (tmp_path path) text).0 (tmp_path path) ≡ some text
  pub rename_done :
      (d : D)
      → (os.rename d (tmp_path path) path).1 ≡ none
      → os.read_file (os.rename d (tmp_path path) path).0 path ≡ os.read_file d (tmp_path path)
  pub rename_failed :
      (d : D) (e : Str)
      → (os.rename d (tmp_path path) path).1 ≡ some e
      → os.read_file (os.rename d (tmp_path path) path).0 path ≡ os.read_file d path

-- A value is read again from what it is marshalled to.
abbrev pub IsReadBack : {P B : Type 0} → Json P B → P → Type 0
IsReadBack json p = (text : _) → json.marshal p ≡ inr text → json.unmarshal text ≡ some p

-- A store has the checks of another in the same order, each with the same name, type, group, target
-- and history and down since the
-- same instant, and its budget states.
abbrev pub Remembers : {F : Type 0} → Store F → Store F → Type 0
Remembers s s' =
    ((k : Str) → labels_of k s' ≡ labels_of k s)
    × ((k : Str) → history_of k s' ≡ history_of k s)
    × ((k : Str) → down_of k s' ≡ down_of k s)
    × ((k : Str) → lookup k s'.budget_checks ≡ lookup k s.budget_checks)
    × (s'.order ≡ s.order)
    × HasValidRings s'

module _ {D B F : Type 0} (os : Os D B) (json : Json (PersistedStore F) B) (path : Str) where
  -- Without an error the file has a text; with one it is as it was on a disk.
  abbrev Replaces : D → B → D × Option Str → Type 0
  Replaces d text (d', none) = os.read_file d' path ≡ some text
  Replaces d text (d', some e) = os.read_file d' path ≡ os.read_file d path

  renamed-Replaces :
      (d : D) (text : B) (r : D × Option Str)
      → Replaces d text r
      → Replaces d text (renamed os path r)
  unfolding renamed
  renamed-Replaces d text (d', none) h = h
  renamed-Replaces d text (d', some e) h = h

  module _ (posix : IsPosix os path) where
    rename-Replaces :
        (d d₁ : D) (text : B) (r : D × Option Str)
        → os.rename d₁ (tmp_path path) path ≡ r
        → os.read_file d₁ path ≡ os.read_file d path
        → os.read_file d₁ (tmp_path path) ≡ some text
        → Replaces d text r
    rename-Replaces d d₁ text (d', none) e h t =
        subst (λ q. os.read_file q.0 path ≡ some text) e
          (posix.rename_done d₁ (ap (λ q. q.1) e) ∙ t)
    rename-Replaces d d₁ text (d', some err) e h t =
        subst (λ q. os.read_file q.0 path ≡ os.read_file d path) e
          (posix.rename_failed d₁ err (ap (λ q. q.1) e) ∙ h)

    wrote-Replaces :
        (d d₁ : D) (text : B) (r : D × Option Str)
        → os.write_file d₁ (tmp_path path) text ≡ r
        → os.read_file d₁ path ≡ os.read_file d path
        → Replaces d text (wrote os path r)
    unfolding wrote
    wrote-Replaces d d₁ text (d', some err) e h =
        subst (λ q. os.read_file q.0 path ≡ os.read_file d path) e (posix.write_keeps d₁ text ∙ h)
    wrote-Replaces d d₁ text (d', none) e h =
        renamed-Replaces d text (os.rename d' (tmp_path path) path) (
          rename-Replaces d d' text (os.rename d' (tmp_path path) path) refl
            (subst (λ q. os.read_file q.0 path ≡ os.read_file d path) e
              (posix.write_keeps d₁ text ∙ h))
            (subst (λ q. os.read_file q.0 (tmp_path path) ≡ some text) e
              (posix.write_done d₁ text (ap (λ q. q.1) e))))

    made-Replaces :
        (d d₁ : D) (text : B) (o : Option Str)
        → os.read_file d₁ path ≡ os.read_file d path
        → Replaces d text (made os path text (d₁, o))
    unfolding made
    made-Replaces d d₁ text (some err) h = h
    made-Replaces d d₁ text none h = wrote-Replaces d d₁ text _ refl h

    -- There is no error and the file has what was marshalled, or there is one and it is as it was.
    abbrev Saves : D → Str ⊎ B → D × Option Str → Type 0
    Saves d m r =
        ((r.1 ≡ none) × (text : B) × (m ≡ inr text) × (os.read_file r.0 path ≡ some text))
        ⊎ ((e : Str) × (r.1 ≡ some e) × (os.read_file r.0 path ≡ os.read_file d path))

    Replaces-Saves :
        (d : D) (text : B) (r : D × Option Str) → Replaces d text r → Saves d (inr text) r
    Replaces-Saves d text (d', none) h = inl (refl, text, refl, h)
    Replaces-Saves d text (d', some e) h = inr (e, refl, h)

    marshalled-Saves : (d : D) (m : Str ⊎ B) → Saves d m (marshalled os json path d m)
    unfolding marshalled
    marshalled-Saves d (inl e) = inr (_, refl, refl)
    marshalled-Saves d (inr text) = Replaces-Saves d text _ (
        made-Replaces d (os.mkdir_all d (os.dir path)).0 text (os.mkdir_all d (os.dir path)).1
          (posix.mkdir_keeps d (os.dir path)))

  load-read :
      (s : Store F) (d : D) (text : B) (raw : PersistedStore F)
      → os.read_file d path ≡ some text
      → json.unmarshal text ≡ some raw
      → load os json path s d ≡ load_data s raw
  unfolding load load_text try_load_data or_backup
  load-read s d text raw e e' = rw (load, e, load_text, try_load_data, e') refl

  new_store-load : (d : D) → path ≢ [] → new_store os json path d ≡ load os json path empty_store d
  unfolding new_store
  new_store-load d named = ground (arith, named, str_beq_iff path [])

-- If no entry is overwritten while a save marshals the store, JSON reads that value back, and its
-- buffers are valid, the save either has no error, and then a store that is made anew from the disk has
-- the checks in their order, each with its name, type, group, target, history and time down, and the
-- budget states, or has an error, and then the file is as it was before.
pub save-restarted :
    {D B F : Type 0} (os : Os D B) (json : Json (PersistedStore F) B) (path : Str) (s : Store F)
    (d : D)
    → IsPosix os path
    → json.live (persisted s) ≡ persisted s
    → IsReadBack json (persisted s)
    → HasValidRings s
    → path ≢ []
    → (((save os json path s d).1 ≡ none)
        × Remembers s (new_store os json path (save os json path s d).0))
      ⊎ ((e : Str) × ((save os json path s d).1 ≡ some e)
          × (os.read_file (save os json path s d).0 path ≡ os.read_file d path))
unfolding save
save-restarted os json path s d posix still back valid named =
    elim (marshalled-Saves os json path posix d (json.marshal (json.live (persisted s)))) [
      | inl (ok, text, m, stored) ↦
          let loaded : new_store os json path (save os json path s d).0 ≡ restarted s =
            new_store-load os json path (save os json path s d).0 named
            ∙ load-read os json path empty_store (save os json path s d).0 text (persisted s) stored
                (back text (ap json.marshal (sym still) ∙ m)) in
          inl (ok, subst (Remembers s) (sym loaded) (restarted-history s valid))
      | inr failed ↦ inr failed
    ]
