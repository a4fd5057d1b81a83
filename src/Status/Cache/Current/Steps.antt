-- ===== src/Status/Cache/Current/Steps.antt =====
-- What each call, and each step of a call of `Snapshot`, leaves.
use technician.Common.{
  ℕ, ◌≡◌, refl, sym, ap, ◌∙◌, inl, inr, true, false, Option, none, some, List, [], ◌∷◌, ◌++◌, arith,
  Bool-cases, ==-true, ◌==◌, nat_eq, Str, str_eq,
}
use technician.Common.Float.{Floats}
use technician.Common.Maps.{lookup, insert, lookup-insert, lookup-delete}
use technician.Status.Store.{Store, push, record_budget_check, record_write_result}
use technician.Status.Store.Keys.{push-IsKeyed}
use technician.Status.Snapshot.Compute.{Snapshot}
use technician.Status.Snapshot.Whole.{compute_snapshot-ShowsAll}
use technician.Status.Cache.{
  Stage, missed, computed, Served, Call, result, budget, written, look, compute, keep, snap_cache,
  found, keep_snapshot, looked, computing, keeping, call,
}
use technician.Status.Cache.Current.{
  is_quiet, uncached, changed, changed_all, compute-uncached, WasKept-snoc, IsCurrent,
  IsCurrent-snoc,
}

module _ {F : Type 0} (fl : Floats F) (format : F → Str) (s : Store F) where
  -- A call does not panic, and what holds after the calls so far holds after it.
  abbrev pub Leaves : List (Call F) → Call F → Option (Served F) → Type 0
  Leaves cs c o = (v' : Served F) × (o ≡ some v') × IsCurrent fl format s (cs ++ c ∷ []) v'

  -- A step of `Snapshot` that changes nothing.
  step-same :
      (cs : List (Call F)) (v : Served F) (c : Call F)
      → is_quiet c ≡ true
      → changed fl c v.store ≡ v.store
      → IsCurrent fl format s cs v
      → IsCurrent fl format s (cs ++ c ∷ []) v
  step-same cs v c q e i =
      IsCurrent-snoc fl format s cs v c v.store i i.keyed (ap uncached (sym e))
        (λ snap h. WasKept-snoc fl format s cs snap v.snap_time c q (i.kept snap h))

  look-IsCurrent :
      (cs : List (Call F)) (v : Served F) (id now : ℕ) (o : Option (Snapshot F))
      → IsCurrent fl format s cs v
      → IsCurrent fl format s (cs ++ look id now ∷ []) (looked fl format id o v)
  unfolding looked snap_cache
  look-IsCurrent cs v id now (some snap) i = step-same cs v (look id now) refl refl i
  look-IsCurrent cs v id now none i =
      let j = step-same cs v (look id now) refl refl i in
      record {
        keyed = j.keyed;
        same = j.same;
        pending =
            λ k snap h. j.pending k snap (ground (arith, h, lookup-insert id k missed v.stages));
        kept = j.kept;
      }

  compute-Leaves :
      (cs : List (Call F)) (v : Served F) (id now : ℕ) (o : Option (Stage F))
      → IsCurrent fl format s cs v
      → Leaves cs (compute id now) (computing fl format id now o v)
  unfolding computing snap_cache
  compute-Leaves cs v id now none i = (v, refl, step-same cs v (compute id now) refl refl i)
  compute-Leaves cs v id now (some (computed snap)) i =
      (v, refl, step-same cs v (compute id now) refl refl i)
  compute-Leaves cs v id now (some missed) i =
      let (rs, snap, e, c, shows) = compute_snapshot-ShowsAll fl format now v.store i.keyed in
      let j = step-same cs v (compute id now) refl refl i in
      (
        record v { stages = insert id (computed snap) v.stages },
        rw (computing, c) refl,
        record {
          keyed = j.keyed;
          same = j.same;
          pending = λ k other h. elim (Bool-cases (id == k)) [
            | inl hit ↦
                let here : snap ≡ other =
                  ground (arith, h, hit, lookup-insert id k (computed snap) v.stages) in
                record {
                  at = now;
                  before = cs;
                  between = [];
                  order = ap (λ n. cs ++ compute n now ∷ []) (==-true hit);
                  of_store =
                      compute-uncached fl format now (changed_all fl cs s) v.store (sym i.same)
                      ∙ c
                      ∙ ap some here;
                }
            | inr miss ↦
                j.pending k other
                  (ground (arith, h, miss, lookup-insert id k (computed snap) v.stages))
          ];
          kept = j.kept;
        },
      )

  keep-IsCurrent :
      (cs : List (Call F)) (v : Served F) (id now : ℕ) (o : Option (Stage F))
      → lookup id v.stages ≡ o
      → IsCurrent fl format s cs v
      → IsCurrent fl format s (cs ++ keep id now ∷ []) (keeping fl format id now o v)
  unfolding keeping keep_snapshot snap_cache
  keep-IsCurrent cs v id now none h i = step-same cs v (keep id now) refl refl i
  keep-IsCurrent cs v id now (some missed) h i = step-same cs v (keep id now) refl refl i
  keep-IsCurrent cs v id now (some (computed snap)) h i =
      let j = step-same cs v (keep id now) refl refl i in
      record {
        keyed = record { keyed = j.keyed.keyed; distinct = j.keyed.distinct };
        same = j.same;
        pending = λ k other e. j.pending k other (ground (arith, e, lookup-delete id k v.stages));
        kept = λ other e. record {
          id = id;
          until = cs;
          after = [];
          origin = i.pending id other (h ∙ ap (λ x. some (computed x)) cc);
          order = refl;
          is_last = refl;
        };
      }

  pub call-Leaves :
      (cs : List (Call F)) (c : Call F) (v : Served F)
      → IsCurrent fl format s cs v
      → Leaves cs c (call fl format c v)
  unfolding call snap_cache push record_budget_check record_write_result
  call-Leaves cs (result r) v i = (
    _,
    refl,
    IsCurrent-snoc fl format s cs v (result r) (push fl v.store r) i
        (push-IsKeyed fl v.store r i.keyed) refl (λ snap h. absurd (ground (arith, h))),
  )
  call-Leaves cs (budget check metric violated) v i = (
    _,
    refl,
    IsCurrent-snoc fl format s cs v (budget check metric violated)
        (record_budget_check v.store check metric violated).0 i
        (record { keyed = i.keyed.keyed; distinct = i.keyed.distinct }) refl
        (λ snap h. absurd (ground (arith, h))),
  )
  call-Leaves cs (written true) v i = (
    _,
    refl,
    IsCurrent-snoc fl format s cs v (written true) (record_write_result v.store true) i
        (record { keyed = i.keyed.keyed; distinct = i.keyed.distinct }) refl
        (λ snap h.
          WasKept-snoc fl format s cs snap v.snap_time (written true) refl (i.kept snap h)),
  )
  call-Leaves cs (written false) v i = (
    _,
    refl,
    IsCurrent-snoc fl format s cs v (written false) (record_write_result v.store false) i
        (record { keyed = i.keyed.keyed; distinct = i.keyed.distinct }) refl
        (λ snap h.
          WasKept-snoc fl format s cs snap v.snap_time (written false) refl (i.kept snap h)),
  )
  call-Leaves cs (look id now) v i = (_, refl, look-IsCurrent cs v id now (found now v) i)
  call-Leaves cs (compute id now) v i = compute-Leaves cs v id now (lookup id v.stages) i
  call-Leaves cs (keep id now) v i =
      (_, refl, keep-IsCurrent cs v id now (lookup id v.stages) refl i)
