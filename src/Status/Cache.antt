-- ===== src/Status/Cache.antt =====
-- internal/status/store.go: `Snapshot`, which keeps what it computes for two seconds. Its callers run
-- at the same time, and it holds no lock between its test, its computing and its keeping, so that these
-- are steps of their own. Loading and `Reconcile` come before the first call of it, and are not among
-- the calls here.
pub mod Current
use technician.Common.{
  ℕ, ◌-◌, Bool, true, Option, none, some, List, [], ◌∷◌, ltb, if◌then◌else◌, nat_eq, Str, str_eq,
}
use technician.Common.Float.{Floats}
use technician.Common.Maps.{Map, lookup, insert, delete}
use technician.Check.{Result}
use technician.Status.Store.{Store, push, record_budget_check, record_write_result}
use technician.Status.Snapshot.Compute.{Snapshot, compute_snapshot}

-- `snapshotTTL`, two seconds
abbrev pub snapshot_ttl : ℕ
snapshot_ttl = 2000000000

-- Where a call of `Snapshot` stands that has found nothing to serve: before its computing, or before it
-- keeps what it computed.
pub data Stage (F : Type 0) : Type 0 where
  missed : Stage F
  computed : Snapshot F → Stage F

-- The store with the snapshot last kept and its time, and the calls of `Snapshot` under way. The store
-- says whether the snapshot is still kept.
pub record Served (F : Type 0) : Type 0 where
  pub store : Store F
  pub last : Option (Snapshot F)
  pub snap_time : ℕ
  pub stages : Map ℕ (Stage F)

-- A call of a method of the store, or a step of a numbered call of `Snapshot`: it looks for a snapshot
-- that is kept, computes one, or keeps it, at an instant.
pub data Call (F : Type 0) : Type 0 where
  result : Result F → Call F
  budget : Str → Str → Bool → Call F
  written : Bool → Call F
  look compute keep : ℕ → ℕ → Call F

-- `snapCache`
unfoldable pub snap_cache : {F : Type 0} → Served F → Option (Snapshot F)
snap_cache v = if v.store.cached then v.last else none

-- the snapshot that `Snapshot` returns at once
unfoldable pub found : {F : Type 0} → ℕ → Served F → Option (Snapshot F)
unfolding snap_cache
found now v = elim (snap_cache v) [
  | none ↦ none
  | some snap ↦ if ltb (now - v.snap_time) snapshot_ttl then some snap else none
]

-- the snapshot becomes `snapCache`
unfoldable pub keep_snapshot : {F : Type 0} → ℕ → Snapshot F → Served F → Served F
keep_snapshot now snap v = record v {
  store = record v.store { cached = true };
  last = some snap;
  snap_time = now;
}

module _ {F : Type 0} (fl : Floats F) (format : F → Str) where
  -- `Snapshot` where nothing comes between its steps, with what it returns; `none` is a panic
  unfoldable pub snapshot : ℕ → Served F → Option (Served F × Snapshot F)
  unfolding found keep_snapshot
  snapshot now v = elim (found now v) [
    | some snap ↦ some (v, snap)
    | none ↦ elim (compute_snapshot fl format now v.store) [
      | none ↦ none
      | some snap ↦ some (keep_snapshot now snap v, snap)
    ]
  ]

  looked : ℕ → Option (Snapshot F) → Served F → Served F
  looked id (some snap) v = v
  looked id none v = record v { stages = insert id missed v.stages }

  computing : ℕ → ℕ → Option (Stage F) → Served F → Option (Served F)
  computing id now (some missed) v = elim (compute_snapshot fl format now v.store) [
    | none ↦ none
    | some snap ↦ some (record v { stages = insert id (computed snap) v.stages })
  ]
  computing id now _ v = some v

  keeping : ℕ → ℕ → Option (Stage F) → Served F → Served F
  unfolding keep_snapshot
  keeping id now (some (computed snap)) v =
      keep_snapshot now snap (record v { stages = delete id v.stages })
  keeping id now _ v = v

  -- A step of a call that is not under way, or not so far, changes nothing.
  unfoldable pub call : Call F → Served F → Option (Served F)
  unfolding looked computing keeping found
  call (result r) v = some (record v { store = push fl v.store r })
  call (budget check metric violated) v =
      some (record v { store = (record_budget_check v.store check metric violated).0 })
  call (written ok) v = some (record v { store = record_write_result v.store ok })
  call (look id now) v = some (looked id (found now v) v)
  call (compute id now) v = computing id now (lookup id v.stages) v
  call (keep id now) v = some (keeping id now (lookup id v.stages) v)

  unfoldable pub calls : List (Call F) → Served F → Option (Served F)
  unfolding call
  calls [] v = some v
  calls (c ∷ cs) v = elim (call c v) [ none ↦ none | some v' ↦ calls cs v' ]
