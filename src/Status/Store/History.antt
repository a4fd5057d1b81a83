-- ===== src/Status/Store/History.antt =====
-- What `Push` does to the rings: every check's history is that of the results pushed under its key.
use technician.Common.{
  ◌≤◌, ◌≡◌, refl, sym, ap, subst, ◌∙◌, inl, inr, Option, none, some, List, [], ◌∷◌, ◌++◌,
  append_assoc, append-nil, arith, if◌then◌else◌, Bool-cases, Option-cases, length, ◌==◌, nat_eq,
  Str, str_eq, ==-true,
}
use technician.Common.Float.{Floats}
use technician.Common.Maps.{lookup, lookup-insert}
use technician.Check.{Result}
use technician.Status.Ring.{Entry, Ring, max_history, ordered}
use technician.Status.Ring
use technician.Status.Ring.Refinement.{
  IsValid, newest, push-IsValid, ordered-push, newest-newest, newest_all, length-ordered,
}
use technician.Status.Store.{
  Store, check_key, ring_for, fresh_ring, track_down, entry_of, updated_ring, push, push_all,
}

module _ {F : Type 0} where
  abbrev pub ring_history : Option (Ring F) → List (Entry F)
  ring_history none = []
  ring_history (some g) = ordered g

  -- The entries that the status page shows of a key, oldest first.
  abbrev pub history_of : Str → Store F → List (Entry F)
  history_of k s = ring_history (lookup k s.checks)

  abbrev pub HasValidRings : Store F → Type 0
  HasValidRings s = (k : Str) (g : Ring F) → lookup k s.checks ≡ some g → IsValid g

  tracked : Option (Ring F) → Result F → Ring F
  unfolding ring_for track_down
  tracked old r =
      let g = ring_for old r in
      record g { down_since = track_down r.success r.infra_error r.timestamp g.down_since }

  tracked-IsValid :
      (old : Option (Ring F)) (r : Result F)
      → ((g : Ring F) → old ≡ some g → IsValid g)
      → IsValid (tracked old r)
  unfolding tracked fresh_ring
  tracked-IsValid none r h = ground arith
  tracked-IsValid (some g) r h = ground (arith, h g refl)

  tracked-ordered :
      (old : Option (Ring F)) (r : Result F) → ordered (tracked old r) ≡ ring_history old
  unfolding tracked fresh_ring ordered
  tracked-ordered none r = refl
  tracked-ordered (some g) r = refl

module _ {F : Type 0} (fl : Floats F) where
  updated_ring-push :
      (old : Option (Ring F)) (r : Result F)
      → updated_ring fl old r ≡ Ring.push (tracked old r) (entry_of fl r)
  unfolding updated_ring tracked
  updated_ring-push old r = refl

  pub updated_ring-IsValid :
      (old : Option (Ring F)) (r : Result F)
      → ((g : Ring F) → old ≡ some g → IsValid g)
      → IsValid (updated_ring fl old r)
  updated_ring-IsValid old r h =
      rw (updated_ring-push old r)
        (push-IsValid (tracked old r) (entry_of fl r) (tracked-IsValid old r h))

  pub updated_ring-ordered :
      (old : Option (Ring F)) (r : Result F)
      → ((g : Ring F) → old ≡ some g → IsValid g)
      → ordered (updated_ring fl old r)
        ≡ newest max_history (ring_history old ++ entry_of fl r ∷ [])
  updated_ring-ordered old r h = rw (
    updated_ring-push old r,
    ordered-push (tracked old r) (entry_of fl r) (tracked-IsValid old r h),
    tracked-ordered old r,
  )

  -- The ring under a key after `Push`.
  pub lookup-push :
      (s : Store F) (r : Result F) (k : Str)
      → lookup k (push fl s r).checks ≡ (
          if check_key r.typ r.name == k
          then some (updated_ring fl (lookup (check_key r.typ r.name) s.checks) r)
          else lookup k s.checks)
  unfolding push
  lookup-push s r k = lookup-insert (check_key r.typ r.name) k _ s.checks

  pub push-HasValidRings :
      (s : Store F) (r : Result F) → HasValidRings s → HasValidRings (push fl s r)
  push-HasValidRings s r v k g e = elim (Bool-cases (check_key r.typ r.name == k)) [
    | inl hit ↦
        let key = check_key r.typ r.name in
        let g' = updated_ring fl (lookup key s.checks) r in
        let same : g' ≡ g = cc (lookup-push s r k, hit, e) in
        subst IsValid same (updated_ring-IsValid (lookup key s.checks) r (v key))
    | inr miss ↦ v k g (cc (lookup-push s r k, miss))
  ]

  pub push-history :
      (s : Store F) (r : Result F) (k : Str)
      → HasValidRings s
      → history_of k (push fl s r) ≡ (
          if check_key r.typ r.name == k
          then newest max_history (history_of k s ++ entry_of fl r ∷ [])
          else history_of k s)
  push-history s r k v = elim (Bool-cases (check_key r.typ r.name == k)) [
    | inl hit ↦
        rw (lookup-push s r k, hit)
          (updated_ring-ordered (lookup (check_key r.typ r.name) s.checks) r (v _)
            ∙ ap (λ j. newest max_history (history_of j s ++ entry_of fl r ∷ [])) (==-true hit))
    | inr miss ↦ rw (lookup-push s r k, miss)
  ]

  -- The entries of the results pushed under a key.
  abbrev pub entries_for : Str → List (Result F) → List (Entry F)
  entries_for k [] = []
  entries_for k (r ∷ rs) =
      if check_key r.typ r.name == k then entry_of fl r ∷ entries_for k rs else entries_for k rs

  pub push_all-HasValidRings :
      (s : Store F) (rs : List (Result F)) → HasValidRings s → HasValidRings (push_all fl s rs)
  unfolding push_all
  push_all-HasValidRings s [] v = v
  push_all-HasValidRings s (r ∷ rs) v =
      push_all-HasValidRings (push fl s r) rs (push-HasValidRings s r v)

  length-history_of :
      (s : Store F) (k : Str) → HasValidRings s → length (history_of k s) ≤ max_history
  length-history_of s k v = elim (Option-cases (lookup k s.checks)) [
    | inl e ↦ rw e (omega arith)
    | inr (g, e) ↦ rw e (length-ordered g (v k g e))
  ]

  -- In a store of valid buffers, after any results, a check's history is the newest `max_history` entries of those pushed under
  -- its key, whatever was pushed under other keys in between, after those it had before.
  pub push_all-history :
      (s : Store F) (rs : List (Result F)) (k : Str)
      → HasValidRings s
      → history_of k (push_all fl s rs) ≡ newest max_history (history_of k s ++ entries_for k rs)
  unfolding push_all
  push_all-history s [] k v = sym (
      rw (append-nil (history_of k s))
        (newest_all max_history (history_of k s) (length-history_of s k v)))
  push_all-history s (r ∷ rs) k v =
      push_all-history (push fl s r) rs k (push-HasValidRings s r v)
      ∙ elim (Bool-cases (check_key r.typ r.name == k)) [
        | inl hit ↦
            rw
              (
                push-history s r k v,
                hit,
                newest-newest max_history (history_of k s ++ entry_of fl r ∷ []) (entries_for k rs),
              )
              (ap (newest max_history)
                (append_assoc (history_of k s) (entry_of fl r ∷ []) (entries_for k rs)))
        | inr miss ↦ rw (push-history s r k v, miss)
      ]
