-- ===== src/Status/Persistence/RoundTrip.antt =====
-- A store that is saved and loaded shows what it showed before.
use technician.Common.{
  ◌≡◌, refl, ap, subst, ◌∙◌, inl, inr, Option, none, some, [], ◌∷◌, arith, if◌then◌else◌,
  Option-cases, if-elim, ◌==◌, nat_eq, Str, str_eq,
}
use technician.Common.Maps.{Map, lookup, lookup-insert}
use technician.Config.Kind.{CheckType}
use technician.Status.Ring.{Ring, ordered}
use technician.Status.Ring.Refinement.{IsValid, length-ordered}
use technician.Status.Store.{Store, BudgetState, empty_store}
use technician.Status.Store.History.{HasValidRings, history_of, ring_history}
use technician.Status.Store.Down.{down_of}
use technician.Status.Persistence.{
  PersistedBudget, copy_each, persisted_ring, persisted_budget, persisted, loaded_ring,
  loaded_budget, load_data,
}

abbrev map_option {ℓ κ} : {A : Type ℓ} {B : Type κ} → (A → B) → Option A → Option B
map_option f none = none
map_option f (some a) = some (f a)

lookup-copy_each {ℓ κ} :
    {V : Type ℓ} {W : Type κ} (f : V → W) (m : Map Str V) (k : Str)
    → lookup k (copy_each f m) ≡ map_option f (lookup k m)
unfolding copy_each lookup
lookup-copy_each f [] k = refl
lookup-copy_each f ((j, v) ∷ m) k =
    lookup-insert j k (f v) (copy_each f m)
    ∙ if-elim (λ o. (if j == k then some (f v) else lookup k (copy_each f m)) ≡ map_option f o)
        (j == k) {x = some v} {y = lookup k m} (λ e. rw e refl) (λ e. rw e (lookup-copy_each f m k))

map_option-map_option :
    {A B C : Type 0} (g : B → C) (f : A → B) (o : Option A)
    → map_option g (map_option f o) ≡ map_option (λ a. g (f a)) o
map_option-map_option g f none = refl
map_option-map_option g f (some a) = refl

lookup-loaded :
    (m : Map Str PersistedBudget) (k : Str)
    → lookup k (elim m [ [] ↦ [] | b ∷ bs ↦ copy_each loaded_budget (b ∷ bs) ])
      ≡ map_option loaded_budget (lookup k m)
unfolding copy_each
lookup-loaded [] k = lookup-copy_each loaded_budget [] k
lookup-loaded (b ∷ bs) k = lookup-copy_each loaded_budget (b ∷ bs) k

budget_round_trip :
    (o : Option BudgetState) → map_option loaded_budget (map_option persisted_budget o) ≡ o
unfolding loaded_budget persisted_budget
budget_round_trip none = refl
budget_round_trip (some b) = refl

module _ {F : Type 0} where
  -- The store after a restart: what a new store loads from what was saved.
  abbrev pub restarted : Store F → Store F
  restarted s = load_data empty_store (persisted s)

  -- A ring after it was saved and loaded.
  abbrev reloaded : Ring F → Ring F
  reloaded r = loaded_ring (persisted_ring r)

  restarted-ring :
      (s : Store F) (k : Str)
      → lookup k (restarted s).checks ≡ map_option reloaded (lookup k s.checks)
  unfolding load_data persisted
  restarted-ring s k =
      lookup-copy_each loaded_ring (copy_each persisted_ring s.checks) k
      ∙ ap (map_option loaded_ring) (lookup-copy_each persisted_ring s.checks k)
      ∙ map_option-map_option loaded_ring persisted_ring (lookup k s.checks)

  reloaded-ordered : (r : Ring F) → ordered (reloaded r) ≡ ordered r
  unfolding loaded_ring persisted_ring ordered
  reloaded-ordered r = refl

  reloaded-IsValid : (r : Ring F) → IsValid r → IsValid (reloaded r)
  unfolding loaded_ring persisted_ring
  reloaded-IsValid r v = ground (arith, length-ordered r v)

  ring_history-reloaded :
      (o : Option (Ring F)) → ring_history (map_option reloaded o) ≡ ring_history o
  ring_history-reloaded none = refl
  ring_history-reloaded (some r) = reloaded-ordered r

  restarted-down : (s : Store F) (k : Str) → down_of k (restarted s) ≡ down_of k s
  unfolding loaded_ring persisted_ring
  restarted-down s k = elim (Option-cases (lookup k s.checks)) [
    | inl absent ↦ rw (restarted-ring s k, absent) refl
    | inr (r, found) ↦ rw (restarted-ring s k, found) refl
  ]

  restarted-budget :
      (s : Store F) (k : Str) → lookup k (restarted s).budget_checks ≡ lookup k s.budget_checks
  unfolding load_data persisted empty_store
  restarted-budget s k =
      lookup-loaded (copy_each persisted_budget s.budget_checks) k
      ∙ ap (map_option loaded_budget) (lookup-copy_each persisted_budget s.budget_checks k)
      ∙ budget_round_trip (lookup k s.budget_checks)

  -- The name, the type, the group and the target of a check.
  abbrev pub labels : Option (Ring F) → Option (Str × CheckType × Str × Str)
  labels none = none
  labels (some r) = some (r.name, r.typ, r.group, r.target)

  abbrev pub labels_of : Str → Store F → Option (Str × CheckType × Str × Str)
  labels_of k s = labels (lookup k s.checks)

  labels-reloaded : (o : Option (Ring F)) → labels (map_option reloaded o) ≡ labels o
  unfolding loaded_ring persisted_ring
  labels-reloaded none = refl
  labels-reloaded (some r) = refl

  restarted-labels : (s : Store F) (k : Str) → labels_of k (restarted s) ≡ labels_of k s
  restarted-labels s k = ap labels (restarted-ring s k) ∙ labels-reloaded (lookup k s.checks)

  -- After a restart a store of valid buffers has the same checks in the same order, each with
  -- the same name, type, group, target and history and down since the same instant, and the same budget states. Its buffers are
  -- valid: one that had wrapped starts anew at its first slot.
  pub restarted-history :
      (s : Store F)
      → HasValidRings s
      → ((k : Str) → labels_of k (restarted s) ≡ labels_of k s)
        × ((k : Str) → history_of k (restarted s) ≡ history_of k s)
        × ((k : Str) → down_of k (restarted s) ≡ down_of k s)
        × ((k : Str) → lookup k (restarted s).budget_checks ≡ lookup k s.budget_checks)
        × ((restarted s).order ≡ s.order)
        × HasValidRings (restarted s)
  unfolding load_data persisted
  restarted-history s v = (
    restarted-labels s,
    λ k. ap ring_history (restarted-ring s k) ∙ ring_history-reloaded (lookup k s.checks),
    restarted-down s,
    restarted-budget s,
    refl,
    λ k g e. elim (Option-cases (lookup k s.checks)) [
      | inl absent ↦ absurd (ground (arith, restarted-ring s k))
      | inr (r, found) ↦
          let same : reloaded r ≡ g = cc (restarted-ring s k, found, e) in
          subst IsValid same (reloaded-IsValid r (v k r found))
    ],
  )
