-- ===== src/History.antt =====
-- internal/history/history.go: the long-term history of results, written by one goroutine in batches.
pub mod Delivery
use technician.Common.{
  ℕ, suc, ◌+◌, ◌/◌, Bool, not, ◌&&◌, Option, none, some, List, [], ◌∷◌, ◌++◌, map, ltb, leb,
  nat_beq, if◌then◌else◌, length, select, ◌==◌, nat_eq, Str, str_eq,
}
use technician.Common.Int.{ℤ}
use technician.Common.Float.{Floats}
use technician.Config.Kind.{text}
use technician.Check.{Result}

-- A row of the table `probe_results`. `ts` counts the milliseconds from Go's zero time, a constant
-- away from those of `UnixMilli`.
pub record Row : Type 0 where
  pub name : Str
  pub typ : Str
  pub ts : ℕ
  pub success : Bool
  pub degraded : Bool
  pub duration_ms : ℕ
  pub status_code : ℤ

-- `bufferSize` and `batchSize`
abbrev pub buffer_size : ℕ
buffer_size = 1024

abbrev pub batch_size : ℕ
batch_size = 100

-- `Store` with the local `batch` of its goroutine: the channel, the batch, and the table.
pub record History (F : Type 0) : Type 0 where
  pub ch : List (Result F)
  pub batch : List (Result F)
  pub table : List Row

-- What the goroutine's `select` meets, and the calls of `Record`. A flush says whether its
-- transaction commits, and a sweep has its cutoff.
pub data HistoryEvent (F : Type 0) : Type 0 where
  recorded : Result F → HistoryEvent F
  received : Bool → HistoryEvent F
  flush_tick : Bool → HistoryEvent F
  prune_tick : ℕ → HistoryEvent F

module _ {F : Type 0} where
  -- the row that `flush` inserts
  unfoldable pub row_of : Result F → Row
  row_of r = record {
    name = r.name;
    typ = text r.typ;
    ts = r.timestamp / 1000000;
    success = r.success;
    degraded = r.degraded;
    duration_ms = r.duration / 1000000;
    status_code = r.status_code;
  }

  -- `Record`
  unfoldable pub record_result : History F → Result F → History F
  record_result h r =
      if r.infra_error
      then h
      else if ltb (length h.ch) buffer_size
      then record h { ch = h.ch ++ r ∷ [] }
      else h

  -- `flush`, and the emptied batch: a transaction that fails leaves the table as it is
  unfoldable pub flush : Bool → History F → History F
  unfolding row_of
  flush commits h =
      if commits
      then record h { table = h.table ++ map row_of h.batch; batch = [] }
      else record h { batch = [] }

  take_first : Bool → List (Result F) → History F → History F
  unfolding flush
  take_first commits [] h = h
  take_first commits (r ∷ rest) h =
      let h' = record h { ch = rest; batch = h.batch ++ r ∷ [] } in
      if leb batch_size (length h'.batch) then flush commits h' else h'

  -- `pruneOld`: DELETE FROM probe_results WHERE ts < cutoff
  unfoldable pub prune_old : ℕ → History F → History F
  prune_old cutoff h = record h { table = select (λ (row : Row). not (ltb row.ts cutoff)) h.table }

  -- one round of the loop of `run` that is not the last, or one call of `Record`
  unfoldable pub step : HistoryEvent F → History F → History F
  unfolding record_result take_first flush prune_old
  step (recorded r) h = record_result h r
  step (received commits) h = take_first commits h.ch h
  step (flush_tick commits) h = if ltb 0 (length h.batch) then flush commits h else h
  step (prune_tick cutoff) h = prune_old cutoff h

  unfoldable pub run : List (HistoryEvent F) → History F → History F
  unfolding step
  run [] h = h
  run (e ∷ es) h = run es (step e h)

  -- the inner loop of the case `<-s.done`, which takes all that is buffered
  drain_buffered : List (Result F) → History F → History F
  drain_buffered [] h = record h { ch = [] }
  drain_buffered (r ∷ rest) h = drain_buffered rest (record h { batch = h.batch ++ r ∷ [] })

  -- `Close`, which waits for the goroutine's last round
  unfoldable pub close : Bool → History F → History F
  unfolding drain_buffered flush
  close commits h =
      let h' = drain_buffered h.ch h in if ltb 0 (length h'.batch) then flush commits h' else h'

  -- `New`
  unfoldable pub new_history : List Row → History F
  new_history table = record { ch = []; batch = []; table = table }

-- SELECT COUNT(*), COALESCE(SUM(success), 0) FROM probe_results WHERE name = ? AND ts >= ?
in_window : Str → ℕ → Row → Bool
in_window name since row = row.name == name && leb since row.ts

count_rows : List Row → ℕ × ℕ
count_rows [] = (0, 0)
count_rows (row ∷ rows) =
    let rest = count_rows rows in (suc rest.0, (if row.success then 1 else 0) + rest.1)

-- `UptimeOverWindow`, with the instant from which the window starts and `none` for no results
unfoldable pub uptime_over_window : {F : Type 0} → Floats F → Str → ℕ → List Row → Option F
unfolding in_window count_rows
uptime_over_window fl name since table =
    let counts = count_rows (select (in_window name since) table) in
    if nat_beq counts.0 0 then none else some (fl.div (fl.of_ℕ counts.1) (fl.of_ℕ counts.0))
