-- ===== src/History/Delivery.antt =====
-- What reaches the table of the long-term history.
use technician.Common.{
  ℕ, ◌≤◌, ◌≡◌, refl, sym, ap, ◌∙◌, Bool, true, false, not, ◌&&◌, List, [], ◌∷◌, ◌++◌, map,
  append_assoc, append-nil, arith, ltb, leb, if◌then◌else◌, if-elim, length, select, nat_eq, Str,
  str_eq, map-append, select-append,
}
use technician.Common.Float.{Floats}
use technician.Check.{Result}
use technician.History.{
  Row, History, HistoryEvent, recorded, received, flush_tick, prune_tick, row_of, record_result,
  flush, take_first, prune_old, step, run, drain_buffered, close, new_history, in_window,
  uptime_over_window, buffer_size, batch_size,
}

-- Rows of a window.
abbrev pub recent : ℕ → List Row → List Row
recent since rows = select (λ (row : Row). leb since row.ts) rows

module _ {F : Type 0} where
  -- What `Record` takes: a result that reached its target while the channel has room.
  abbrev pub admitted : HistoryEvent F → History F → List (Result F)
  admitted (recorded r) h =
      if not r.infra_error && ltb (length h.ch) buffer_size then r ∷ [] else []
  admitted _ h = []

  abbrev pub all_admitted : List (HistoryEvent F) → History F → List (Result F)
  unfolding step
  all_admitted [] h = []
  all_admitted (e ∷ es) h = admitted e h ++ all_admitted es (step e h)

  -- Flushes commit, and no sweep reaches into the window.
  abbrev pub IsCalm : ℕ → HistoryEvent F → Type 0
  IsCalm since (recorded r) = Unit {0}
  IsCalm since (received commits) = commits ≡ true
  IsCalm since (flush_tick commits) = commits ≡ true
  IsCalm since (prune_tick cutoff) = cutoff ≤ since

  abbrev pub AreCalm : ℕ → List (HistoryEvent F) → Type 0
  AreCalm since [] = Unit {0}
  AreCalm since (e ∷ es) = IsCalm since e × AreCalm since es

  -- The table, with the rows of what is on its way.
  abbrev pub stored : History F → List Row
  stored h = h.table ++ map row_of (h.batch ++ h.ch)

  flush-stored : (h : History F) → stored (flush true h) ≡ stored h
  unfolding flush
  flush-stored h =
      append_assoc h.table (map row_of h.batch) (map row_of h.ch)
      ∙ ap (λ rows. h.table ++ rows) (sym (map-append row_of h.batch h.ch))

  take_first-stored :
      (xs : List (Result F)) (h : History F)
      → h.ch ≡ xs
      → stored (take_first true xs h) ≡ h.table ++ map row_of (h.batch ++ xs)
  unfolding take_first
  take_first-stored [] h e = ap (λ waiting. h.table ++ map row_of (h.batch ++ waiting)) e
  take_first-stored (r ∷ rest) h e =
      let h' : History F = record h { ch = rest; batch = h.batch ++ r ∷ [] } in
      let same_rows : stored h' ≡ h.table ++ map row_of (h.batch ++ r ∷ rest) =
        ap (λ waiting. h.table ++ map row_of waiting) (append_assoc h.batch (r ∷ []) rest) in
      if-elim (λ (g : History F). stored g ≡ h.table ++ map row_of (h.batch ++ r ∷ rest))
        (leb batch_size (length h'.batch)) (λ t. flush-stored h' ∙ same_rows) (λ t. same_rows)

  flush_tick-stored : (h : History F) → stored (step (flush_tick true) h) ≡ stored h
  unfolding step
  flush_tick-stored h =
      if-elim (λ (g : History F). stored g ≡ stored h) (ltb 0 (length h.batch))
        (λ t. flush-stored h) (λ t. refl)

  with_one :
      (h : History F) (r : Result F)
      → stored (record h { ch = h.ch ++ r ∷ [] }) ≡ stored h ++ row_of r ∷ []
  with_one h r =
      ap (λ waiting. h.table ++ map row_of waiting) (sym (append_assoc h.batch h.ch (r ∷ [])))
      ∙ ap (λ rows. h.table ++ rows) (map-append row_of (h.batch ++ h.ch) (r ∷ []))
      ∙ sym (append_assoc h.table (map row_of (h.batch ++ h.ch)) (row_of r ∷ []))

  recorded_when :
      (infra room : Bool) (h : History F) (r : Result F)
      → stored (if infra then h else if room then record h { ch = h.ch ++ r ∷ [] } else h)
        ≡ stored h ++ map row_of (if not infra && room then r ∷ [] else [])
  recorded_when true room h r = sym (append-nil (stored h))
  recorded_when false true h r = with_one h r
  recorded_when false false h r = sym (append-nil (stored h))

  recorded-stored :
      (r : Result F) (h : History F)
      → stored (record_result h r) ≡ stored h ++ map row_of (admitted (recorded r) h)
  unfolding record_result
  recorded-stored r h = recorded_when r.infra_error (ltb (length h.ch) buffer_size) h r

both_empty {ℓ} : {A : Type ℓ} (xs ys : List A) → ltb 0 (length xs) ≡ false → ys ≡ [] → xs ++ ys ≡ []
both_empty [] ys h e = e
both_empty (x ∷ xs) ys h e = absurd (ground arith)

recent-pruned :
    (since cutoff : ℕ) (rows : List Row)
    → cutoff ≤ since
    → recent since (select (λ (row : Row). not (ltb row.ts cutoff)) rows) ≡ recent since rows
recent-pruned since cutoff [] h = refl
recent-pruned since cutoff (row ∷ rows) h = ground (arith, recent-pruned since cutoff rows h)

module _ {F : Type 0} where
  step-stored :
      (since : ℕ) (e : HistoryEvent F) (h : History F)
      → IsCalm since e
      → recent since (stored (step e h))
        ≡ recent since (stored h) ++ recent since (map row_of (admitted e h))
  unfolding step prune_old
  step-stored since (recorded r) h calm =
      rw (recorded-stored r h) (select-append (λ (row : Row). leb since row.ts) (stored h) _)
  step-stored since (received commits) h calm = rw calm (
      ap (recent since) (take_first-stored h.ch h refl)
      ∙ sym (append-nil (recent since (stored h))))
  step-stored since (flush_tick commits) h calm =
      rw calm (ap (recent since) (flush_tick-stored h) ∙ sym (append-nil (recent since (stored h))))
  step-stored since (prune_tick cutoff) h calm =
      let waiting = map row_of (h.batch ++ h.ch) in
      let in_time = λ (row : Row). leb since row.ts in
      select-append in_time (select (λ (row : Row). not (ltb row.ts cutoff)) h.table) waiting
      ∙ ap (λ rows. rows ++ recent since waiting) (recent-pruned since cutoff h.table calm)
      ∙ sym (select-append in_time h.table waiting)
      ∙ sym (append-nil (recent since (stored h)))

  run-stored :
      (since : ℕ) (es : List (HistoryEvent F)) (h : History F)
      → AreCalm since es
      → recent since (stored (run es h))
        ≡ recent since (stored h) ++ recent since (map row_of (all_admitted es h))
  unfolding run all_admitted
  run-stored since [] h calm = sym (append-nil (recent since (stored h)))
  run-stored since (e ∷ es) h calm =
      run-stored since es (step e h) calm.1
      ∙ rw (step-stored since e h calm.0) (
          append_assoc (recent since (stored h)) (recent since (map row_of (admitted e h))) _
          ∙ ap (λ rows. recent since (stored h) ++ rows)
              (sym (select-append (λ (row : Row). leb since row.ts) (map row_of (admitted e h)) _)
                ∙ ap (recent since)
                    (sym (map-append row_of (admitted e h) (all_admitted es (step e h))))))

  drain_buffered-fields :
      (xs : List (Result F)) (h : History F)
      → (stored (drain_buffered xs h) ≡ h.table ++ map row_of (h.batch ++ xs))
        × ((drain_buffered xs h).ch ≡ [])
  unfolding drain_buffered
  drain_buffered-fields [] h = (refl, refl)
  drain_buffered-fields (r ∷ rest) h =
      let more = drain_buffered-fields rest (record h { batch = h.batch ++ r ∷ [] }) in
      (
        more.0 ∙ ap (λ waiting. h.table ++ map row_of waiting) (append_assoc h.batch (r ∷ []) rest),
        more.1,
      )

  closed :
      (h : History F)
      → h.ch ≡ []
      → (if◌then◌else◌ {A = History F} (ltb 0 (length h.batch)) (flush true h) h).table ≡ stored h
  unfolding flush
  closed h e =
      if-elim (λ (g : History F). g.table ≡ stored h) (ltb 0 (length h.batch))
        (λ t.
          ap (λ waiting. h.table ++ map row_of waiting) (sym (append-nil h.batch))
          ∙ ap (λ xs. h.table ++ map row_of (h.batch ++ xs)) (sym e))
        (λ t.
          sym (append-nil h.table)
          ∙ ap (λ xs. h.table ++ map row_of xs) (sym (both_empty h.batch h.ch t e)))

  -- Once the history is closed, what was on its way is in the table.
  close-stored : (h : History F) → (close true h).table ≡ stored h
  unfolding close
  close-stored h = let d = drain_buffered-fields h.ch h in closed (drain_buffered h.ch h) d.1 ∙ d.0

  -- Nothing that the history takes is lost: when it is closed, the rows of any window in the table are
  -- those of the table before and of the results that `Record` took, in the order in which it took
  -- them, if every transaction commits and no sweep reaches into the window.
  pub close-run :
      (since : ℕ) (es : List (HistoryEvent F)) (table : List Row)
      → AreCalm since es
      → recent since (close true (run es (new_history table))).table
        ≡ recent since table ++ recent since (map row_of (all_admitted es (new_history table)))
  unfolding new_history
  close-run since es table calm =
      ap (recent since) (close-stored (run es (new_history table)))
      ∙ run-stored since es (new_history table) calm
      ∙ ap
          (λ rows.
            recent since rows ++ recent since (map row_of (all_admitted es (new_history table))))
          (append-nil table)

recent-in_window :
    (name : Str) (since : ℕ) (rows : List Row)
    → select (in_window name since) (recent since rows) ≡ select (in_window name since) rows
unfolding in_window
recent-in_window name since [] = refl
recent-in_window name since (row ∷ rows) = ground (arith, recent-in_window name since rows)

-- The uptime over a window that no sweep reaches into is, after the history is closed, that of all
-- the results that `Record` took.
pub uptime_over_window-run :
    {F : Type 0} (fl : Floats F) (name : Str) (since : ℕ) (es : List (HistoryEvent F))
    → AreCalm since es
    → uptime_over_window fl name since (close true (run es (new_history []))).table
      ≡ uptime_over_window fl name since (map row_of (all_admitted es (new_history [])))
unfolding uptime_over_window
uptime_over_window-run fl name since es calm =
    let out = (close true (run es (new_history []))).table in
    let seen = map row_of (all_admitted es (new_history [])) in
    let same_rows : select (in_window name since) out ≡ select (in_window name since) seen =
      sym (recent-in_window name since out)
      ∙ ap (select (in_window name since)) (close-run since es [] calm)
      ∙ recent-in_window name since seen in
    rw same_rows refl
