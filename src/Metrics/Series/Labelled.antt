-- ===== src/Metrics/Series/Labelled.antt =====
-- The label values of the series that a recorded result writes.
use technician.Common.{
  ℕ, ◌≡◌, refl, Bool, true, Option, none, some, List, [], ◌∷◌, ◌++◌, arith, nat_beq, if-elim,
  length, every, nat_eq, Str, str_eq,
}
use technician.Common.Int.{ℤ}
use technician.Common.Float.{Floats, of_ℤ}
use technician.Common.Maps.{Map}
use technician.Config.Kind.{CheckType, playwright}
use technician.Check.{Result, WebVitals, HarData}
use technician.Metrics.Gauges.{
  browser_dom_complete, gauge_labels, har_resource_duration, har_resource_bytes,
}
use technician.Metrics.Series.{
  Write, LabelSet, record_type, record_http, record_browser, record_vitals, record_transfer,
  record_har, each_type, record_admitted, durations_by_type, bytes_by_type, profiled,
}

-- `WithLabelValues` panics unless there is one value for each label.
abbrev pub is_labelled : {F : Type 0} → Write F → Bool
is_labelled w = nat_beq (length w.values) (length (gauge_labels w.gauge))

abbrev pub are_labelled : {F : Type 0} → List (Write F) → Bool
are_labelled ws = every is_labelled ws

module _ {F : Type 0} where
  are_labelled-append :
      (xs ys : List (Write F))
      → are_labelled xs ≡ true
      → are_labelled ys ≡ true
      → are_labelled (xs ++ ys) ≡ true
  are_labelled-append [] ys h k = k
  are_labelled-append (x ∷ xs) ys h k = ground (arith, are_labelled-append xs ys)

module _ {F : Type 0} (fl : Floats F) where
  durations_labelled :
      (r : Result F) (l : LabelSet) (m : Map Str F)
      → are_labelled (each_type fl r l har_resource_duration (λ d. d) m) ≡ true
  unfolding each_type gauge_labels
  durations_labelled r l [] = refl
  durations_labelled r l ((rt, d) ∷ rest) = durations_labelled r l rest

  bytes_labelled :
      (r : Result F) (l : LabelSet) (m : Map Str ℤ)
      → are_labelled (each_type fl r l har_resource_bytes (of_ℤ fl) m) ≡ true
  unfolding each_type gauge_labels
  bytes_labelled r l [] = refl
  bytes_labelled r l ((rt, d) ∷ rest) = bytes_labelled r l rest

  har_labelled :
      (h : Option (HarData F)) (r : Result F) (l : LabelSet)
      → are_labelled (record_transfer fl h r l) ≡ true
  unfolding record_transfer record_har gauge_labels
  har_labelled none r l = refl
  har_labelled (some h) r l =
      are_labelled-append
        (each_type fl r l har_resource_duration (λ d. d) (durations_by_type fl h.entries []))
        (each_type fl r l har_resource_bytes (of_ℤ fl) (bytes_by_type fl h.entries []))
        (durations_labelled r l (durations_by_type fl h.entries []))
        (bytes_labelled r l (bytes_by_type fl h.entries []))

  vitals_labelled :
      (v : Option (WebVitals F)) (r : Result F) (l : LabelSet)
      → are_labelled (record_vitals fl v r l) ≡ true
  unfolding record_vitals gauge_labels
  vitals_labelled none r l = refl
  vitals_labelled (some v) r l =
      if-elim
        (λ (ws : List (Write F)).
          are_labelled (ws ++ profiled r l browser_dom_complete v.dom_complete ∷ []) ≡ true)
        (fl.less (fl.of_ℕ 0) v.inp) (λ t. refl) (λ t. refl)

  type_labelled :
      (t : CheckType) (r : Result F) (l : LabelSet) → are_labelled (record_type fl t r l) ≡ true
  unfolding record_type record_http record_browser gauge_labels
  type_labelled playwright r l =
      are_labelled-append (record_vitals fl r.web_vitals r l) (record_transfer fl r.har_data r l)
        (vitals_labelled r.web_vitals r l) (har_labelled r.har_data r l)
  type_labelled _ r l = refl

  pub admitted_labelled :
      (unix_now : ℕ) (r : Result F) (l : LabelSet)
      → are_labelled (record_admitted fl unix_now r l) ≡ true
  unfolding record_admitted gauge_labels
  admitted_labelled unix_now r l =
      are_labelled-append (record_type fl r.typ r l) _ (type_labelled r.typ r l) refl
