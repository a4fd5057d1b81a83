-- ===== src/Metrics/Labels.antt =====
-- The label values of the series that are written.
use technician.Common.{ℕ, ◌≡◌, refl, true, List, if-elim, nat_eq, str_eq}
use technician.Common.Float.{Floats}
use technician.Check.{Result}
use technician.Metrics.Gauges.{gauge_labels}
use technician.Metrics.Series.{Write, site_labels_of}
use technician.Metrics.Series.Labelled.{are_labelled, admitted_labelled}
use technician.Metrics.{Cardinality, record_result, admit}

module _ {F : Type 0} (fl : Floats F) where
  -- Every series that a result writes has one value for each label of its gauge, so that recording a
  -- result does not panic.
  pub record_result-are_labelled :
      (unix_now : ℕ) (r : Result F) (c : Cardinality)
      → are_labelled (record_result fl unix_now r c).1 ≡ true
  unfolding record_result gauge_labels
  record_result-are_labelled unix_now r c =
      if-elim (λ (v : Cardinality × List (Write F)). are_labelled v.1 ≡ true) r.infra_error
        (λ t. refl)
        (λ t.
          if-elim (λ (ws : List (Write F)). are_labelled ws ≡ true) (admit r.name c).1
            (λ a. admitted_labelled fl unix_now r (site_labels_of r)) (λ a. refl))
