-- ===== src/Status/Snapshot/Whole.antt =====
-- `computeSnapshot` on a store whose order and map hold the same keys.
use mathlib.Core.Path.{fun_ext}
use technician.Common.{
  get_last?, ℕ, suc, ◌+◌, ◌≡◌, refl, sym, ap, ◌∙◌, inl, inr, Bool, true, false, Option, none, some,
  List, [], ◌∷◌, map, arith, if◌then◌else◌, Bool-cases, length, select, ◌==◌, nat_eq, Str,
  str_beq_iff, str_eq,
}
use technician.Common.Float.{Floats}
use technician.Common.Grouping.{firsts, listed-group_all}
use technician.Common.Maps.{Map, lookup, has_key}
use technician.Status.Ring.{Ring, ordered}
use technician.Status.Store.{Store, mem}
use technician.Status.Store.Keys.{IsKeyed}
use technician.Status.Figures.{Latency, compute_latency}
use technician.Status.Figures.Latencies.{returned, compute_latency-returned}
use technician.Status.Snapshot.{
  CheckStatus, pending, up, error, down, Counts, check_status, count, count_all, no_counts,
}
use technician.Status.Snapshot.Shown.{
  status_shown, AreShown, check_status-shown, Shows-attach, AreShown-map,
}
use technician.Status.Snapshot.Compute.{
  CheckState, CheckGroup, Snapshot, probe_budgets, attach, read_rings, state_with, check_state,
  check_states, with_group, group_of, assemble, compute_snapshot,
}

returned-some :
    {F : Type 0} (o : Option (Option (Latency F))) (b : Bool)
    → returned o ≡ some b
    → (l : Option (Latency F)) × (o ≡ some l)
returned-some none b h = cc
returned-some (some l) b h = (l, refl)

abbrev pub says_up : CheckStatus → Bool
says_up up = true
says_up _ = false

abbrev pub says_down : CheckStatus → Bool
says_down down = true
says_down _ = false

abbrev pub says_error : CheckStatus → Bool
says_error error = true
says_error _ = false

count_step :
    (s : CheckStatus) (c : Counts)
    → ((count s c).up_count ≡ c.up_count + (if says_up s then 1 else 0))
      × ((count s c).down_count ≡ c.down_count + (if says_down s then 1 else 0))
      × ((count s c).err_count ≡ c.err_count + (if says_error s then 1 else 0))
unfolding count
count_step pending c = ground arith
count_step up c = ground arith
count_step error c = ground arith
count_step down c = ground arith

some_of :
    {A : Type 0} (o : Option A)
    → elim o [ none ↦ false | some a ↦ true ] ≡ true
    → (a : A) × (o ≡ some a)
some_of none h = cc
some_of (some a) h = (a, refl)

module _ {F : Type 0} where
  found :
      (k : Str) (m : Map Str (Ring F)) → has_key k m ≡ true → (r : Ring F) × (lookup k m ≡ some r)
  unfolding has_key
  found k m h = some_of (lookup k m) h

  read_rings-cons :
      (k : Str) (ks : List Str) (m : Map Str (Ring F)) (r : Ring F) (rs : List (Ring F))
      → lookup k m ≡ some r
      → read_rings ks m ≡ some rs
      → read_rings (k ∷ ks) m ≡ some (r ∷ rs)
  unfolding read_rings
  read_rings-cons k ks m r rs e e' = ground arith

  read_rings-some :
      (ks : List Str) (m : Map Str (Ring F))
      → ((k : Str) → mem k ks ≡ true → has_key k m ≡ true)
      → (rs : List (Ring F)) × (read_rings ks m ≡ some rs)
        × (length rs ≡ length ks)
        × (map some rs ≡ map (λ k. lookup k m) ks)
  unfolding read_rings
  read_rings-some [] m h = ([], refl, refl, refl)
  read_rings-some (k ∷ ks) m h =
      let (r, e) = found k m (h k (ground (arith, str_beq_iff k k))) in
      let (rs, e', n, at) = read_rings-some ks m (λ j hj. h j (ground (arith, hj))) in
      (r ∷ rs, read_rings-cons k ks m r rs e e', ap suc n, rw (e, at) refl)

  -- How many rings have a newest entry that gives such a status.
  abbrev pub how_many : (CheckStatus → Bool) → List (Ring F) → ℕ
  how_many p rs = length (select (λ r. p (status_shown (get_last? (ordered r)))) rs)

  count_all-how_many :
      (c : Counts) (rs : List (Ring F))
      → ((count_all c rs).up_count ≡ c.up_count + how_many says_up rs)
        × ((count_all c rs).down_count ≡ c.down_count + how_many says_down rs)
        × ((count_all c rs).err_count ≡ c.err_count + how_many says_error rs)
  unfolding count_all
  count_all-how_many c [] = ground arith
  count_all-how_many c (r ∷ rs) = rw (← check_status-shown r) (
      ground
        (arith, count_step (check_status r) c, count_all-how_many (count (check_status r) c) rs))

module _ {F : Type 0} (fl : Floats F) (format : F → Str) (now : ℕ) where
  check_states-cons :
      (r : Ring F) (rs : List (Ring F)) (l : Option (Latency F)) (cs : List (CheckState F))
      → compute_latency fl (ordered r) ≡ some l
      → check_states fl format now rs ≡ some cs
      → check_states fl format now (r ∷ rs) ≡ some (state_with fl format now r l ∷ cs)
  unfolding check_states check_state
  check_states-cons r rs l cs e e' = ground arith

  check_states-some :
      (rs : List (Ring F))
      → (cs : List (CheckState F)) × (check_states fl format now rs ≡ some cs)
        × (length cs ≡ length rs)
        × AreShown rs cs
  unfolding check_states check_state
  check_states-some [] = ([], refl, refl, refl)
  check_states-some (r ∷ rs) =
      let (l, e) = returned-some _ _ (compute_latency-returned fl (ordered r)) in
      let (cs, e', n, shown) = check_states-some rs in
      (
        state_with fl format now r l ∷ cs,
        check_states-cons r rs l cs e e',
        ap suc n,
        ((refl, refl, refl, refl, refl, check_status-shown r), shown),
      )

-- A finished state keeps its place beside its ring.
module _ {F : Type 0} (finish : CheckState F → CheckState F) (k : Str) where
  members_finish :
      (rs : List (Ring F)) (cs : List (CheckState F))
      → map (λ p. finish p.1) (select (λ p. p.0 == k) (with_group rs cs))
        ≡ map (λ p. p.1) (select (λ p. p.0 == k) (with_group rs (map finish cs)))
  members_finish [] cs = refl
  members_finish (r ∷ rs) [] = refl
  members_finish (r ∷ rs) (c ∷ cs) = elim (Bool-cases (r.group == k)) [
    | inl hit ↦ rw hit (ap (◌∷◌ (finish c)) (members_finish rs cs))
    | inr miss ↦ rw miss (members_finish rs cs)
  ]

groups_with :
    {F : Type 0} (rs : List (Ring F)) (cs : List (CheckState F))
    → length cs ≡ length rs
    → map (λ p. p.0) (with_group rs cs) ≡ map (λ r. r.group) rs
groups_with [] cs h = refl
groups_with (r ∷ rs) [] h = absurd (omega (arith, h))
groups_with (r ∷ rs) (c ∷ cs) h = ap (◌∷◌ r.group) (groups_with rs cs (omega (arith, h)))

abbrev named : {F : Type 0} → Str → List (CheckState F) → CheckGroup F
named k cs = record { name = k; checks = cs }

-- The group of a name: the states of the checks whose rings have it, in order.
abbrev pub named_group : {F : Type 0} → List (Ring F) → List (CheckState F) → Str → CheckGroup F
named_group rs cs k = record {
  name = k;
  checks = map (λ p. p.1) (select (λ p. p.0 == k) (with_group rs cs));
}

-- A snapshot shows a list of rings: a state for each, in order, the groups of these states, in the order in which
-- their names are first seen, and the counts of their statuses.
abbrev pub ShowsAll : {F : Type 0} → List (Ring F) → Snapshot F → Type 0
ShowsAll rs snap =
    AreShown rs snap.checks
    × (snap.groups ≡ map (named_group rs snap.checks) (firsts [] (map (λ r. r.group) rs)))
    × (snap.summary.up_total ≡ how_many says_up rs)
    × (snap.summary.down_total ≡ how_many says_down rs)
    × (snap.summary.error_total ≡ how_many says_error rs)

module _ {F : Type 0} (fl : Floats F) (format : F → Str) (now : ℕ) where
  assemble-ShowsAll :
      (s : Store F) (rs : List (Ring F)) (cs : List (CheckState F))
      → length cs ≡ length rs
      → AreShown rs cs
      → ShowsAll rs (assemble fl format now s rs cs)
  unfolding assemble
  assemble-ShowsAll s rs cs h shown =
      let finish = attach (probe_budgets s.budget_checks []) in
      (
        AreShown-map finish (Shows-attach (probe_budgets s.budget_checks [])) rs cs shown,
        listed-group_all (group_of finish) (λ p. p.0) (with_group rs cs)
            ∙ ap
                (λ ks.
                  map (λ k. group_of finish k (select (λ p. p.0 == k) (with_group rs cs)))
                    (firsts [] ks))
                (groups_with rs cs h)
            ∙ ap (λ f. map f (firsts [] (map (λ r. r.group) rs)))
                (fun_ext (λ k. ap (named k) (members_finish finish k rs cs))),
        omega (arith, count_all-how_many no_counts rs),
        omega (arith, count_all-how_many no_counts rs),
        omega (arith, count_all-how_many no_counts rs),
      )

compute_snapshot-parts :
    {F : Type 0} (fl : Floats F) (format : F → Str) (now : ℕ) (s : Store F) (rs : List (Ring F))
    (cs : List (CheckState F))
    → read_rings s.order s.checks ≡ some rs
    → check_states fl format now rs ≡ some cs
    → compute_snapshot fl format now s ≡ some (assemble fl format now s rs cs)
unfolding compute_snapshot
compute_snapshot-parts fl format now s rs cs e e' = ground arith

-- If the order and the map of the store hold the same keys, computing a snapshot does not panic, and
-- the snapshot shows the ring of each key, in the order of the store: with its name, type, target,
-- entries and status, in its group, and counted where it is up, down or in error.
pub compute_snapshot-ShowsAll :
    {F : Type 0} (fl : Floats F) (format : F → Str) (now : ℕ) (s : Store F)
    → IsKeyed s
    → (rs : List (Ring F)) × (snap : Snapshot F) × (map some rs
        ≡ map (λ k. lookup k s.checks) s.order)
      × (compute_snapshot fl format now s ≡ some snap)
      × ShowsAll rs snap
compute_snapshot-ShowsAll fl format now s v =
    let (rs, e, n, at) = read_rings-some s.order s.checks (λ k h. sym (v.keyed k) ∙ h) in
    let (cs, e', n', shown) = check_states-some fl format now rs in
    (
      rs,
      assemble fl format now s rs cs,
      at,
      compute_snapshot-parts fl format now s rs cs e e',
      assemble-ShowsAll fl format now s rs cs n' shown,
    )
