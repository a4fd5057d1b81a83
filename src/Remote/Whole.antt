-- ===== src/Remote/Whole.antt =====
-- A whole write request: what a reader gets is what was to be sent.
use technician.Common.{
  ℕ, ◌^◌, ◌<◌, ◌≡◌, refl, sym, ap, ◌∙◌, inl, inr, Option, none, some, List, [], ◌∷◌, ◌++◌, map,
  append_assoc, append-nil, arith, nat_beq, if◌then◌else◌, nat_beq_iff, Bool-cases, if-elim, length,
  length-map, nat_eq, Str, str_eq, map-append,
}
use technician.Common.Text.{codes, has_prefix}
use technician.Remote.{
  Wire, MetricType, Metric, MetricFamily, sample_value, sort_pairs, metric_prefix,
  encode_time_series, append_series, append_metrics, append_families, encode_write_request,
}
use technician.Remote.Decode.{Reader, Undoes, put, length-put, type_of, bytes_of}
use technician.Remote.RoundTrip.{
  Series, series_with, metrics_series, all_series, series_field, append_labels-put, put-append,
  AllSized, decode_request, decode_request-put,
}

module _ {F : Type 0} (w : Wire) (bits : F → ℕ) (ts_millis : ℕ) where
  -- the bytes of series
  put_series : List Series → Str
  put_series ss = put w (map (series_field w) ss)

  put_series-append : (ss ts : List Series) → put_series (ss ++ ts) ≡ put_series ss ++ put_series ts
  unfolding put_series
  put_series-append ss ts =
      ap (put w) (map-append (series_field w) ss ts)
      ∙ put-append w (map (series_field w) ss) (map (series_field w) ts)

  append_series-put :
      (name : Str) (m : Metric F) (val : F) (out : Str)
      → append_series w bits ts_millis out (encode_time_series w name m.labels (bits val) ts_millis)
        ≡ out ++ put_series (series_with bits ts_millis name m (some val) [])
  unfolding append_series encode_time_series put_series series_with series_field put type_of
      bytes_of
  append_series-put name m val out =
      rw
        (append_labels-put w (sort_pairs ((codes "__name__", name) ∷ m.labels)) (bits val) ts_millis
          [])
        (simp (append_assoc, append-nil))

  append_sample-put :
      (name : Str) (typ : MetricType) (m : Metric F) (ms : List (Metric F)) (o : Option F)
      (out : Str)
      → ((out' : Str)
          → append_metrics w bits ts_millis name typ ms out'
            ≡ out' ++ put_series (metrics_series bits ts_millis name typ ms))
      → append_metrics w bits ts_millis name typ ms (elim o [
        | none ↦ out
        | some val ↦
            append_series w bits ts_millis out
              (encode_time_series w name m.labels (bits val) ts_millis)
      ])
        ≡ out
          ++ put_series
              (series_with bits ts_millis name m o (metrics_series bits ts_millis name typ ms))
  unfolding series_with
  append_sample-put name typ m ms none out more = more out
  append_sample-put name typ m ms (some val) out more =
      let one = series_with bits ts_millis name m (some val) [] in
      more _
      ∙ ap (λ o. o ++ put_series (metrics_series bits ts_millis name typ ms))
          (append_series-put name m val out)
      ∙ append_assoc out (put_series one) (put_series (metrics_series bits ts_millis name typ ms))
      ∙ ap (◌++◌ out) (sym (put_series-append one (metrics_series bits ts_millis name typ ms)))

  append_metrics-put :
      (name : Str) (typ : MetricType) (ms : List (Metric F)) (out : Str)
      → append_metrics w bits ts_millis name typ ms out
        ≡ out ++ put_series (metrics_series bits ts_millis name typ ms)
  unfolding append_metrics metrics_series put_series put
  append_metrics-put name typ [] out = sym (append-nil out)
  append_metrics-put name typ (m ∷ ms) out =
      append_sample-put name typ m ms (sample_value typ m) out (append_metrics-put name typ ms)

  append_families-put :
      (mfs : List (MetricFamily F)) (out : Str)
      → append_families w bits ts_millis mfs out ≡ out ++ put_series (all_series bits ts_millis mfs)
  unfolding append_families all_series
  append_families-put [] out = unfold put_series put in sym (append-nil out)
  append_families-put (mf ∷ mfs) out = elim (Bool-cases (has_prefix mf.name metric_prefix)) [
    | inl own ↦
        let here = metrics_series bits ts_millis mf.name mf.typ mf.metrics in
        rw own (
          append_families-put mfs _
          ∙ ap (λ o. o ++ put_series (all_series bits ts_millis mfs))
              (append_metrics-put mf.name mf.typ mf.metrics out)
          ∙ append_assoc out (put_series here) (put_series (all_series bits ts_millis mfs))
          ∙ ap (◌++◌ out) (sym (put_series-append here (all_series bits ts_millis mfs))))
    | inr other ↦ rw other (append_families-put mfs out)
  ]

-- The numbers fit.
AllSized-append : (ss ts : List Series) → AllSized ss → AllSized ts → AllSized (ss ++ ts)
AllSized-append [] ts h k = k
AllSized-append (s ∷ ss) ts (a, b, c) k = (a, b, AllSized-append ss ts c k)

module _ {F : Type 0} (bits : F → ℕ) (ts_millis : ℕ) (bits_fit : (x : F) → bits x < 2 ^ 64)
    (millis_fit : ts_millis < 2 ^ 64) where
  series_with-AllSized :
      (name : Str) (m : Metric F) (o : Option F) (rest : List Series)
      → AllSized rest
      → AllSized (series_with bits ts_millis name m o rest)
  unfolding series_with
  series_with-AllSized name m none rest h = h
  series_with-AllSized name m (some val) rest h = (bits_fit val, millis_fit, h)

  metrics_series-AllSized :
      (name : Str) (typ : MetricType) (ms : List (Metric F))
      → AllSized (metrics_series bits ts_millis name typ ms)
  unfolding metrics_series
  metrics_series-AllSized name typ [] = tt
  metrics_series-AllSized name typ (m ∷ ms) =
      series_with-AllSized name m (sample_value typ m) _ (metrics_series-AllSized name typ ms)

  all_series-AllSized : (mfs : List (MetricFamily F)) → AllSized (all_series bits ts_millis mfs)
  unfolding all_series
  all_series-AllSized [] = tt
  all_series-AllSized (mf ∷ mfs) =
      if-elim AllSized (has_prefix mf.name metric_prefix)
        (λ e.
          AllSized-append _ _ (metrics_series-AllSized mf.name mf.typ mf.metrics)
            (all_series-AllSized mfs))
        (λ e. all_series-AllSized mfs)

-- What is read of a request, where nothing is sent if there is none.
abbrev pub received : Reader → Option Str → Option (List Series)
received r none = some []
received r (some out) = decode_request r out

received-out :
    (r : Reader) (w : Wire) (u : Undoes r w) (ss : List Series) (out : Str)
    → AllSized ss
    → out ≡ put w (map (series_field w) ss)
    → received r (if nat_beq (length out) 0 then none else some out) ≡ some ss
received-out r w u ss out h e = elim (Bool-cases (nat_beq (length out) 0)) [
  | inl empty ↦ rw empty (
      ap some (
        nothing ss (
          omega (
            arith,
            length-put r w u (map (series_field w) ss),
            ap length e,
            (nat_beq_iff (length out) 0).0 empty,
            length-map ss (series_field w),
          ))))
  | inr full ↦ rw full (rw e (decode_request-put r w u ss h))
]
  where
    nothing : (ss : List Series) → length ss ≡ 0 → [] ≡ ss
    nothing [] h = refl
    nothing (s ∷ ss) h = absurd (omega (arith, h))

-- A reader that undoes what protowire appends gets from a write request exactly the series that are to
-- be sent: one for each metric with a single value in a family of this program, in order, with the
-- family's name and the metric's labels sorted, the bits of its value and the time; and there is no
-- request if there is no such metric.
pub encode_write_request-received :
    {F : Type 0} (r : Reader) (w : Wire) (bits : F → ℕ) (ts_millis : ℕ)
    (mfs : List (MetricFamily F))
    → Undoes r w
    → ((x : F) → bits x < 2 ^ 64)
    → ts_millis < 2 ^ 64
    → received r (encode_write_request w bits ts_millis mfs) ≡ some (all_series bits ts_millis mfs)
unfolding encode_write_request
encode_write_request-received r w bits ts_millis mfs u bits_fit millis_fit =
    received-out r w u (all_series bits ts_millis mfs) (append_families w bits ts_millis mfs [])
      (all_series-AllSized bits ts_millis bits_fit millis_fit mfs)
      (unfold put_series in append_families-put w bits ts_millis mfs [])
