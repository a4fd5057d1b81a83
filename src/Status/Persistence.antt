-- ===== src/Status/Persistence.antt =====
-- internal/status/store.go: what `save` writes and what `tryLoadData` makes of it. The JSON text is not
-- modelled.
pub mod RoundTrip
pub mod Files
use technician.Common.{ℕ, List, [], ◌∷◌, Bool, true, false, Str, str_eq}
use technician.Common.Maps.{Map, insert}
use technician.Config.Kind.{CheckType}
use technician.Status.Ring.{Entry, Ring, ordered}
use technician.Status.Store.{Store, BudgetState}

pub record PersistedRing (F : Type 0) : Type 0 where
  pub name : Str
  pub typ : CheckType
  pub group : Str
  pub target : Str
  pub entries : List (Entry F)
  pub down_since : ℕ

pub record PersistedBudget : Type 0 where
  pub violated : Bool
  pub consecutive_violations : ℕ

pub record PersistedStore (F : Type 0) : Type 0 where
  pub order : List Str
  pub rings : Map Str (PersistedRing F)
  pub budget_checks : Map Str PersistedBudget

-- a `range` over a map that writes each entry, converted, into an empty one
unfoldable pub copy_each {ℓ κ} : {V : Type ℓ} {W : Type κ} → (V → W) → Map Str V → Map Str W
copy_each f [] = []
copy_each f ((k, v) ∷ rest) = insert k (f v) (copy_each f rest)

module _ {F : Type 0} where
  unfoldable pub persisted_ring : Ring F → PersistedRing F
  persisted_ring r = record {
    name = r.name;
    typ = r.typ;
    group = r.group;
    target = r.target;
    entries = ordered r;
    down_since = r.down_since;
  }

-- the budgets' part of `save`
unfoldable pub persisted_budget : BudgetState → PersistedBudget
persisted_budget b = record {
  violated = b.violated;
  consecutive_violations = b.consecutive_violations;
}

module _ {F : Type 0} where
  -- the value that `save` marshals; no budgets are an absent map
  unfoldable pub persisted : Store F → PersistedStore F
  unfolding copy_each persisted_ring persisted_budget
  persisted s = record {
    order = s.order;
    rings = copy_each persisted_ring s.checks;
    budget_checks = copy_each persisted_budget s.budget_checks;
  }

  -- the literal `&checkRing{…}`: the buffer starts as one that has not wrapped
  unfoldable pub loaded_ring : PersistedRing F → Ring F
  loaded_ring p = record {
    name = p.name;
    typ = p.typ;
    group = p.group;
    target = p.target;
    entries = p.entries;
    head = 0;
    full = false;
    down_since = p.down_since;
  }

-- the budgets' part of `tryLoadData`
unfoldable pub loaded_budget : PersistedBudget → BudgetState
loaded_budget p = record {
  violated = p.violated;
  consecutive_violations = p.consecutive_violations;
}

module _ {F : Type 0} where
  -- `tryLoadData` of a parsed value, on the new store that `NewStore` calls it on
  unfoldable pub load_data : Store F → PersistedStore F → Store F
  unfolding copy_each loaded_ring loaded_budget
  load_data s raw = record s {
    order = raw.order;
    checks = copy_each loaded_ring raw.rings;
    budget_checks = elim raw.budget_checks [
      | [] ↦ s.budget_checks
      | b ∷ bs ↦ copy_each loaded_budget (b ∷ bs)
    ];
  }
