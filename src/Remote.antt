-- ===== src/Remote.antt =====
-- internal/remotewrite/remotewrite.go: the encoding of the metrics.
pub mod Decode
pub mod RoundTrip
pub mod Whole
pub mod Writer
use technician.Common.{
  ℕ, not, Option, none, some, List, [], ◌∷◌, ◌++◌, nat_beq, if◌then◌else◌, length, nat_eq, Str,
  str_eq,
}
use technician.Common.Order.{str_less}
use technician.Common.Text.{codes, has_prefix}

-- The wire types of package protowire that are used.
pub data WireType : Type 0 where
  varint_type fixed64_type bytes_type : WireType

-- What the functions `Append…` of package protowire append.
pub record Wire : Type 0 where
  pub tag : ℕ → WireType → Str
  pub varint : ℕ → Str
  pub fixed64 : ℕ → Str
  pub bytes : Str → Str

-- `dto.MetricType`, of which `other_type` is every type without a single value
pub data MetricType : Type 0 where
  counter gauge untyped other_type : MetricType

-- `dto.Metric`: its labels and the values that the getters give.
pub record Metric (F : Type 0) : Type 0 where
  pub labels : List (Str × Str)
  pub gauge_value : F
  pub counter_value : F
  pub untyped_value : F

pub record MetricFamily (F : Type 0) : Type 0 where
  pub name : Str
  pub typ : MetricType
  pub metrics : List (Metric F)

-- `sampleValue`
unfoldable pub sample_value : {F : Type 0} → MetricType → Metric F → Option F
sample_value gauge m = some m.gauge_value
sample_value counter m = some m.counter_value
sample_value untyped m = some m.untyped_value
sample_value _ m = none

insert_pair : Str × Str → List (Str × Str) → List (Str × Str)
insert_pair p [] = p ∷ []
insert_pair p (q ∷ qs) = if str_less q.0 p.0 then q ∷ insert_pair p qs else p ∷ q ∷ qs

-- `sort.Slice` by the names, which are all different in one metric
unfoldable pub sort_pairs : List (Str × Str) → List (Str × Str)
unfolding insert_pair
sort_pairs [] = []
sort_pairs (p ∷ ps) = insert_pair p (sort_pairs ps)

-- `metricPrefix`
abbrev pub metric_prefix : Str
metric_prefix = codes "technician_"

module _ (w : Wire) where
  -- `encodeLabel`
  unfoldable pub encode_label : Str → Str → Str
  encode_label name value =
      ((w.tag 1 bytes_type ++ w.bytes name) ++ w.tag 2 bytes_type) ++ w.bytes value

  -- `encodeSample`, of the bits of the value
  unfoldable pub encode_sample : ℕ → ℕ → Str
  encode_sample bits ts_millis =
      ((w.tag 1 fixed64_type ++ w.fixed64 bits) ++ w.tag 2 varint_type) ++ w.varint ts_millis

  -- the loop over the pairs
  pub append_labels : List (Str × Str) → Str → Str
  unfolding encode_label
  append_labels [] ts = ts
  append_labels ((k, v) ∷ ps) ts =
      append_labels ps ((ts ++ w.tag 1 bytes_type) ++ w.bytes (encode_label k v))

  -- `encodeTimeSeries`
  unfoldable pub encode_time_series : Str → List (Str × Str) → ℕ → ℕ → Str
  unfolding append_labels encode_sample
  encode_time_series name labels bits ts_millis =
      (append_labels (sort_pairs ((codes "__name__", name) ∷ labels)) [] ++ w.tag 2 bytes_type)
      ++ w.bytes (encode_sample bits ts_millis)

  -- `bits` is `math.Float64bits`
  module _ {F : Type 0} (bits : F → ℕ) (ts_millis : ℕ) where
    append_series : Str → Str → Str
    append_series out series = (out ++ w.tag 1 bytes_type) ++ w.bytes series

    -- the loop over the metrics of a family
    append_metrics : Str → MetricType → List (Metric F) → Str → Str
    unfolding append_series sample_value
    append_metrics name typ [] out = out
    append_metrics name typ (m ∷ ms) out = append_metrics name typ ms (elim (sample_value typ m) [
      | none ↦ out
      | some val ↦ append_series out (encode_time_series name m.labels (bits val) ts_millis)
    ])

    append_families : List (MetricFamily F) → Str → Str
    unfolding append_metrics
    append_families [] out = out
    append_families (mf ∷ mfs) out = append_families mfs (
        if not (has_prefix mf.name metric_prefix)
        then out
        else append_metrics mf.name mf.typ mf.metrics out)

    -- `encodeWriteRequest`, with `none` for nil
    unfoldable pub encode_write_request : List (MetricFamily F) → Option Str
    unfolding append_families
    encode_write_request mfs =
        let out = append_families mfs [] in if nat_beq (length out) 0 then none else some out
