-- ===== src/Common/Maps.antt =====
-- A Go map: an association list whose order stands for the unspecified order of `range`.
use technician.Common.Tests.{if◌then◌else◌}
use technician.Common.Keys.{HasEq, ◌==◌}
use mathlib.Core.Path.{◌≡◌, refl}
use mathlib.Core.Bool.{Bool, true, false}
use mathlib.Core.Option.{Option, none, some}
use mathlib.Core.List.{List, [], ◌∷◌}
use native.Mathlib.Omega.{arith}

abbrev pub Map {ℓ κ} : Type ℓ → Type κ → Type (ℓ ⊔ κ)
Map K V = List (K × V)

module _ {ℓ κ} {K : Type ℓ} ⦃e : HasEq K⦄ {V : Type κ} where
  -- `v, ok := m[k]`
  unfoldable pub lookup : K → Map K V → Option V
  lookup key [] = none
  lookup key ((at, v) ∷ rest) = if at == key then some v else lookup key rest

  -- `m[k] = v`
  unfoldable pub insert : K → V → Map K V → Map K V
  insert key v [] = (key, v) ∷ []
  insert key v ((at, old) ∷ rest) =
      if at == key then (key, v) ∷ rest else (at, old) ∷ insert key v rest

  -- `delete(m, k)`
  unfoldable pub delete : K → Map K V → Map K V
  delete key [] = []
  delete key ((at, old) ∷ rest) = if at == key then delete key rest else (at, old) ∷ delete key rest

  -- `m[k]`, with the value type's zero for a missing key
  unfoldable pub lookup_or : K → V → Map K V → V
  unfolding lookup
  lookup_or key d rest = elim (lookup key rest) [ none ↦ d | some v ↦ v ]

  -- `_, ok := m[k]`
  unfoldable pub has_key : K → Map K V → Bool
  unfolding lookup
  has_key key rest = elim (lookup key rest) [ none ↦ false | some v ↦ true ]

  pub lookup-insert :
      (key at : K) (v : V) (rest : Map K V)
      → lookup at (insert key v rest) ≡ (if key == at then some v else lookup at rest)
  unfolding lookup insert
  lookup-insert key at v [] = refl
  lookup-insert key at v ((here, old) ∷ rest) = ground (
    arith,
    e.same_iff key at,
    e.same_iff here key,
    e.same_iff here at,
    lookup-insert key at v rest,
  )

  pub lookup-delete :
      (key at : K) (rest : Map K V)
      → lookup at (delete key rest) ≡ (if key == at then none else lookup at rest)
  unfolding lookup delete
  lookup-delete key at [] = ground arith
  lookup-delete key at ((here, old) ∷ rest) =
      ground (
        arith,
        e.same_iff key at,
        e.same_iff here key,
        e.same_iff here at,
        lookup-delete key at rest,
      )

  pub lookup_or-insert :
      (key at : K) (d v : V) (rest : Map K V)
      → lookup_or at d (insert key v rest) ≡ (if key == at then v else lookup_or at d rest)
  unfolding lookup_or
  lookup_or-insert key at d v rest = ground (arith, lookup-insert key at v rest)

  pub lookup_or-delete :
      (key at : K) (d : V) (rest : Map K V)
      → lookup_or at d (delete key rest) ≡ (if key == at then d else lookup_or at d rest)
  unfolding lookup_or
  lookup_or-delete key at d rest = ground (arith, lookup-delete key at rest)

pub ruleset map_laws = (lookup-insert, lookup-delete, lookup_or-insert, lookup_or-delete)
