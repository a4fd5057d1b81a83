-- ===== src/Status/Cache/Current.antt =====
-- What calls, and the steps of calls of `Snapshot` among them, do to the store and what they keep.
pub mod Steps
pub mod Calls
use technician.Common.{
  ℕ, ◌≡◌, refl, sym, ap, ◌∙◌, Bool, true, false, some, List, [], ◌∷◌, ◌++◌, append_assoc, arith,
  every, nat_eq, Str, str_eq,
}
use technician.Common.Float.{Floats}
use technician.Common.Maps.{lookup}
use technician.Status.Store.{Store, push, record_budget_check, record_write_result}
use technician.Status.Store.Keys.{IsKeyed}
use technician.Status.Snapshot.Compute.{Snapshot, compute_snapshot, assemble}
use technician.Status.Cache.{
  Served, Call, computed, result, budget, written, look, compute, keep, snap_cache,
}

-- The store without what says that a snapshot is kept.
abbrev uncached : {F : Type 0} → Store F → Store F
uncached s = record s { cached = false }

-- Whether a call leaves what a snapshot shows as it is.
abbrev pub is_quiet : {F : Type 0} → Call F → Bool
is_quiet (result r) = false
is_quiet (budget check metric violated) = false
is_quiet (written ok) = true
is_quiet (look id now) = true
is_quiet (compute id now) = true
is_quiet (keep id now) = true

module _ {F : Type 0} (fl : Floats F) where
  -- What a call does to a store that keeps no snapshot.
  abbrev pub changed : Call F → Store F → Store F
  changed (result r) s = push fl s r
  changed (budget check metric violated) s = (record_budget_check s check metric violated).0
  changed (written ok) s = record_write_result s ok
  changed (look id now) s = s
  changed (compute id now) s = s
  changed (keep id now) s = s

  abbrev pub changed_all : List (Call F) → Store F → Store F
  changed_all [] s = s
  changed_all (c ∷ cs) s = changed_all cs (changed c s)

  changed-uncached :
      (c : Call F) (s : Store F) → uncached (changed c s) ≡ uncached (changed c (uncached s))
  unfolding push record_budget_check record_write_result
  changed-uncached (result r) s = refl
  changed-uncached (budget check metric violated) s = refl
  changed-uncached (written true) s = refl
  changed-uncached (written false) s = refl
  changed-uncached (look id now) s = refl
  changed-uncached (compute id now) s = refl
  changed-uncached (keep id now) s = refl

  changed-same :
      (c : Call F) (s s' : Store F)
      → uncached s ≡ uncached s'
      → uncached (changed c s) ≡ uncached (changed c s')
  changed-same c s s' e =
      changed-uncached c s ∙ ap (λ x. uncached (changed c x)) e ∙ sym (changed-uncached c s')

  changed_all-snoc :
      (cs : List (Call F)) (c : Call F) (s : Store F)
      → changed_all (cs ++ c ∷ []) s ≡ changed c (changed_all cs s)
  changed_all-snoc [] c s = refl
  changed_all-snoc (b ∷ cs) c s = changed_all-snoc cs c (changed b s)

every-snoc :
    {F : Type 0} (cs : List (Call F)) (c : Call F)
    → every is_quiet cs ≡ true
    → is_quiet c ≡ true
    → every is_quiet (cs ++ c ∷ []) ≡ true
every-snoc [] c h k = ground (arith, k)
every-snoc (b ∷ cs) c h k =
    let both : (is_quiet b ≡ true) × (every is_quiet cs ≡ true) =
      (ground (arith, h), ground (arith, h)) in
    ground (arith, both.0, every-snoc cs c both.1 k)

module _ {F : Type 0} (fl : Floats F) (format : F → Str) where
  compute-uncached :
      (t : ℕ) (s s' : Store F)
      → uncached s ≡ uncached s'
      → compute_snapshot fl format t s ≡ compute_snapshot fl format t s'
  unfolding compute_snapshot assemble
  compute-uncached t s s' e = ap (compute_snapshot fl format t) e

  -- Among the calls one of `Snapshot` has computed this snapshot, on the store as it then was.
  pub record WasComputed (s : Store F) (cs : List (Call F)) (id : ℕ) (snap : Snapshot F)
      : Type 0 where
    pub at : ℕ
    pub before : List (Call F)
    pub between : List (Call F)
    pub order : cs ≡ before ++ compute id at ∷ between
    pub of_store : compute_snapshot fl format at (changed_all fl before s) ≡ some snap

  -- Among the calls one has kept this snapshot at an instant, after it has computed it, and no result
  -- and no budget check came after it was kept.
  pub record WasKept (s : Store F) (cs : List (Call F)) (snap : Snapshot F) (t : ℕ) : Type 0 where
    pub id : ℕ
    pub until : List (Call F)
    pub after : List (Call F)
    pub origin : WasComputed s until id snap
    pub order : cs ≡ until ++ keep id t ∷ after
    pub is_last : every is_quiet after ≡ true

  WasComputed-snoc :
      (s : Store F) (cs : List (Call F)) (id : ℕ) (snap : Snapshot F) (c : Call F)
      → WasComputed s cs id snap
      → WasComputed s (cs ++ c ∷ []) id snap
  WasComputed-snoc s cs id snap c w = record {
    at = w.at;
    before = w.before;
    between = w.between ++ c ∷ [];
    order =
        ap (λ ds. ds ++ c ∷ []) w.order
        ∙ append_assoc w.before (compute id w.at ∷ w.between) (c ∷ []);
    of_store = w.of_store;
  }

  WasKept-snoc :
      (s : Store F) (cs : List (Call F)) (snap : Snapshot F) (t : ℕ) (c : Call F)
      → is_quiet c ≡ true
      → WasKept s cs snap t
      → WasKept s (cs ++ c ∷ []) snap t
  WasKept-snoc s cs snap t c q w = record {
    id = w.id;
    until = w.until;
    after = w.after ++ c ∷ [];
    origin = w.origin;
    order = ap (λ ds. ds ++ c ∷ []) w.order ∙ append_assoc w.until (keep w.id t ∷ w.after) (c ∷ []);
    is_last = every-snoc w.after c w.is_last q;
  }

  -- What holds after the calls `cs` on the store `s`.
  record IsCurrent (s : Store F) (cs : List (Call F)) (v : Served F) : Type 0 where
    keyed : IsKeyed v.store
    same : uncached v.store ≡ uncached (changed_all fl cs s)
    pending :
        (id : ℕ) (snap : Snapshot F)
        → lookup id v.stages ≡ some (computed snap)
        → WasComputed s cs id snap
    kept : (snap : Snapshot F) → snap_cache v ≡ some snap → WasKept s cs snap v.snap_time

  -- The store of a call that leaves the stages, where nothing is kept or what was kept still is.
  IsCurrent-snoc :
      (s : Store F) (cs : List (Call F)) (v : Served F) (c : Call F) (s' : Store F)
      → IsCurrent s cs v
      → IsKeyed s'
      → uncached s' ≡ uncached (changed fl c v.store)
      → ((snap : Snapshot F)
          → snap_cache (record v { store = s' }) ≡ some snap
          → WasKept s (cs ++ c ∷ []) snap v.snap_time)
      → IsCurrent s (cs ++ c ∷ []) (record v { store = s' })
  IsCurrent-snoc s cs v c s' i k e kept = record {
    keyed = k;
    same =
        e
        ∙ changed-same fl c v.store (changed_all fl cs s) i.same
        ∙ ap uncached (sym (changed_all-snoc fl cs c s));
    pending = λ id snap h. WasComputed-snoc s cs id snap c (i.pending id snap h);
    kept = kept;
  }
