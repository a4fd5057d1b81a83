-- ===== src/Status/Cache/Current/Calls.antt =====
-- What any interleaving of calls leaves, and what the next call of `Snapshot` then serves.
use technician.Common.{ℕ, ◌+◌, ◌<◌, ◌≡◌, ◌⊎◌, false, none, some, List, [], nat_eq, Str, str_eq}
use technician.Common.Float.{Floats}
use technician.Status.Store.{Store}
use technician.Status.Snapshot.Compute.{Snapshot, compute_snapshot}
use technician.Status.Cache.{Served, Call}
use technician.Status.Cache.Current.{changed_all, WasKept}

module _ {F : Type 0} (fl : Floats F) (format : F → Str) (s : Store F) where
  -- What a call of `Snapshot` returns after the calls `cs`: the snapshot of the store as they leave it,
  -- or one that was kept less than two seconds before.
  abbrev pub Serves : List (Call F) → Served F → ℕ → Snapshot F → Type 0
  Serves cs v now snap =
      (compute_snapshot fl format now (changed_all fl cs s) ≡ some snap)
      ⊎ ((now < v.snap_time + 2000000000) × WasKept fl format s cs snap v.snap_time)

-- The state of a store from which no snapshot has been taken.
abbrev pub unserved : {F : Type 0} → Store F → Served F
unserved s = record { store = record s { cached = false }; last = none; snap_time = 0; stages = [] }
