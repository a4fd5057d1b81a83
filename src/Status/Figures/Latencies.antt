-- ===== src/Status/Figures/Latencies.antt =====
-- `computeLatency` reads no element out of range.
use technician.Common.{
  ℕ, zero, suc, ◌+◌, ◌-◌, ◌<◌, ◌≡◌, refl, ap, ◌∙◌, inl, inr, Bool, true, false, Option, none, some,
  List, [], ◌∷◌, arith, ltb, leb, Bool-cases, length, get_elem?, select, length-map, nat_eq, str_eq,
}
use technician.Common.Float.{Floats}
use technician.Status.Ring.{Entry}
use technician.Status.Figures.{
  Latency, counts_as_run, insert_float, sort_floats, interpolate, percentile, all_four, run_times,
  compute_latency,
}

-- Whether there is a value.
abbrev pub is_some {ℓ} : {A : Type ℓ} → Option A → Bool
is_some none = false
is_some (some a) = true

get_elem?-in_range {ℓ} :
    {A : Type ℓ} (xs : List A) (i : ℕ) → i < length xs → is_some (get_elem? xs i) ≡ true
get_elem?-in_range [] i h = absurd (omega arith)
get_elem?-in_range (x ∷ xs) zero h = refl
get_elem?-in_range (x ∷ xs) (suc i) h = get_elem?-in_range xs i (omega arith)

-- Both layers: the call returns, and what it returns is nil or not.
abbrev pub returned : {F : Type 0} → Option (Option (Latency F)) → Option Bool
returned none = none
returned (some l) = some (is_some l)

module _ {F : Type 0} (fl : Floats F) where
  length-insert_float : (x : F) (ys : List F) → length (insert_float fl x ys) ≡ suc (length ys)
  unfolding insert_float
  length-insert_float x [] = refl
  length-insert_float x (y ∷ ys) = ground (arith, length-insert_float x ys)

  length-sort_floats : (xs : List F) → length (sort_floats fl xs) ≡ length xs
  unfolding sort_floats
  length-sort_floats [] = refl
  length-sort_floats (x ∷ xs) =
      length-insert_float x (sort_floats fl xs) ∙ ap suc (length-sort_floats xs)

  interpolate-some :
      (frac : F) (a b : Option F)
      → is_some a ≡ true
      → is_some b ≡ true
      → is_some (interpolate fl frac a b) ≡ true
  unfolding interpolate
  interpolate-some frac none b h k = h
  interpolate-some frac (some a) none h k = k
  interpolate-some frac (some a) (some b) h k = refl

  percentile-some :
      (sorted : List F) (p : ℕ) → 0 < length sorted → is_some (percentile fl sorted p) ≡ true
  unfolding percentile
  percentile-some sorted p h =
      let idx = fl.mul (fl.div (fl.of_ℕ p) (fl.of_ℕ 100)) (fl.of_ℕ (length sorted - 1)) in
      let low = fl.to_ℕ idx in
      elim (Bool-cases (leb (length sorted) (low + 1))) [
        | inl last ↦ rw last (get_elem?-in_range sorted (length sorted - 1) (omega arith))
        | inr within ↦
            let l : low + 1 < length sorted = ground arith in
            rw within (
              interpolate-some (fl.sub idx (fl.of_ℕ low)) (get_elem? sorted low)
                (get_elem? sorted (low + 1)) (get_elem?-in_range sorted low (omega arith))
                (get_elem?-in_range sorted (low + 1) l))
      ]

  length-run_times :
      (es : List (Entry F)) → length (run_times fl es) ≡ length (select counts_as_run es)
  unfolding run_times
  length-run_times es = length-map (select counts_as_run es) (λ e. e.duration_ms)

  all_four-some :
      (a b c d : Option F)
      → is_some a ≡ true
      → is_some b ≡ true
      → is_some c ≡ true
      → is_some d ≡ true
      → returned (all_four fl a b c d) ≡ some true
  unfolding all_four
  all_four-some (some a) (some b) (some c) (some d) h i j k = refl
  all_four-some none b c d h i j k = cc
  all_four-some (some a) none c d h i j k = cc
  all_four-some (some a) (some b) none d h i j k = cc
  all_four-some (some a) (some b) (some c) none h i j k = cc

  -- `computeLatency` returns for any entries, with percentiles exactly if two of them at least are
  -- successes that are no infrastructure errors: every index that it reads is in range, whatever the
  -- arithmetic of the floating-point numbers makes of it.
  pub compute_latency-returned :
      (es : List (Entry F))
      → returned (compute_latency fl es) ≡ some (leb 2 (length (select counts_as_run es)))
  unfolding compute_latency
  compute_latency-returned es =
      let sorted = sort_floats fl (run_times fl es) in
      let same : length (run_times fl es) ≡ length (select counts_as_run es) =
        length-run_times es in
      elim (Bool-cases (ltb (length (run_times fl es)) 2)) [
        | inl few ↦ rw few (ground (arith, same))
        | inr enough ↦
            let n : 0 < length sorted = ground (arith, length-sort_floats (run_times fl es)) in
            rw enough (
              all_four-some (percentile fl sorted 50) (percentile fl sorted 90)
                (percentile fl sorted 95) (percentile fl sorted 99) (percentile-some sorted 50 n)
                (percentile-some sorted 90 n) (percentile-some sorted 95 n)
                (percentile-some sorted 99 n)
              ∙ ground (arith, same, enough))
      ]
