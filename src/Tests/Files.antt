-- ===== src/Tests/Files.antt =====
-- The properties of the store's file on a disk that is a map, with values in place of bytes.
use technician.Common.{
  ℕ, ◌≡◌, refl, ◌≢◌, ◌⊎◌, inr, false, Option, none, some, [], ◌∷◌, map, arith, if◌then◌else◌, ◌==◌,
  nat_eq, Str, str_eq, ==-refl, List,
}
use technician.Common.Float.{whole}
use technician.Common.Int.{pos}
use technician.Common.Maps.{Map, insert, lookup, delete, has_key, lookup-insert}
use technician.Common.Text.{codes}
use technician.Status.Store.{Store, push_all}
use technician.Status.Store.History.{push_all-HasValidRings}
use technician.Status.Persistence.{PersistedStore, persisted}
use technician.Status.Persistence.Files.{Os, Json, tmp_path, save, new_store}
use technician.Status.Persistence.Files.Atomic.{IsPosix, IsReadBack, Remembers, save-restarted}
use technician.Worker.{health, Tick, save_tick, backup_tick, on_ticks}
use technician.Worker.Persisting.{outcomes, on_ticks-health}
use technician.Tests.Data.{web, empty}
use technician.Tests.Store.{empty-HasValidRings}

abbrev Bytes : Type 0
Bytes = PersistedStore ℕ

abbrev Disk : Type 0
Disk = Map Str Bytes

abbrev move : Option Bytes → Disk → Str → Str → Disk × Option Str
move none d old new = (d, some (codes "no such file"))
move (some b) d old new = (insert new b (delete old d), none)

-- One directory, whose names are paths; the 6th is the only day that can be read.
abbrev disk_os : Os Disk Bytes
disk_os = record {
  read_file = λ d n. lookup n d;
  mkdir_all = λ d n. (d, none);
  write_file = λ d n b. (insert n b d, none);
  rename = λ d old new. move (lookup old d) d old new;
  stat = λ d n. has_key n d;
  remove = λ d n. (delete n d, none);
  read_dir = λ d n. some (map (λ kv. kv.0) d);
  dir = λ n. codes ".";
  base = λ n. n;
  join = λ a b. b;
  parse_day = λ n. if n == codes "6" then some (pos 6) else none;
  day_text = λ n. codes "6";
}

abbrev as_is : Json (PersistedStore ℕ) Bytes
as_is = record { marshal = λ p. inr p; unmarshal = λ p. some p; live = λ p. p }

as_is-IsReadBack : (p : Bytes) → IsReadBack as_is p
as_is-IsReadBack p b e = ground (arith, e)

abbrev file : Str
file = codes "s"

move-done :
    (o : Option Bytes) (d : Disk) (old new : Str)
    → (move o d old new).1 ≡ none
    → lookup new (move o d old new).0 ≡ o
move-done none d old new e = absurd (ground (arith, e))
move-done (some b) d old new e = ground (arith, lookup-insert new new b (delete old d), ==-refl new)

move-failed :
    (o : Option Bytes) (d : Disk) (old new : Str) (err : Str)
    → (move o d old new).1 ≡ some err
    → lookup new (move o d old new).0 ≡ lookup new d
move-failed none d old new err e = refl
move-failed (some b) d old new err e = absurd (ground (arith, e))

disk_os-IsPosix : IsPosix disk_os file
disk_os-IsPosix = record {
  mkdir_keeps = λ d n. refl;
  write_keeps = λ d b. lookup-insert (tmp_path file) file b d;
  write_done = λ d b e. lookup-insert (tmp_path file) (tmp_path file) b d;
  rename_done = λ d e. move-done (lookup (tmp_path file) d) d (tmp_path file) file e;
  rename_failed = λ d err e. move-failed (lookup (tmp_path file) d) d (tmp_path file) file err e;
}

abbrev one_run : Store ℕ
one_run = push_all whole empty (web false 7 ∷ [])

file-named : file ≢ []
file-named e = ground (arith, e)

save-restarted_example :
    (((save disk_os as_is file one_run []).1 ≡ none)
      × Remembers one_run (new_store disk_os as_is file (save disk_os as_is file one_run []).0))
    ⊎ ((e : Str) × ((save disk_os as_is file one_run []).1 ≡ some e)
        × (lookup file (save disk_os as_is file one_run []).0 ≡ none))
unfolding lookup
save-restarted_example =
    save-restarted disk_os as_is file one_run [] disk_os-IsPosix refl
      (as_is-IsReadBack (persisted one_run))
      (push_all-HasValidRings whole empty (web false 7 ∷ []) empty-HasValidRings) file-named

abbrev old_disk : Disk
old_disk =
    (codes "s", record { order = []; rings = []; budget_checks = [] })
    ∷ (codes "s.6", record { order = []; rings = []; budget_checks = [] })
    ∷ []

-- A disk on which no file can be written.
abbrev full_os : Os Disk Bytes
full_os = record disk_os { write_file = λ d n b. (d, some (codes "no space left on device")) }

abbrev six_ticks : List Tick
six_ticks = save_tick ∷ save_tick ∷ backup_tick 3 ∷ save_tick ∷ save_tick ∷ save_tick ∷ []

on_ticks-health_example :
    (health (on_ticks full_os as_is file six_ticks (one_run, [])).0).status ≡ 503
unfolding outcomes save push_all
on_ticks-health_example = on_ticks-health full_os as_is file six_ticks one_run [] file-named refl
