-- ===== src/Remote/RoundTrip.antt =====
-- An encoded request gives its series back.
use technician.Common.{
  ℕ, ◌^◌, ◌<◌, ◌≡◌, refl, ◌∙◌, ◌&&◌, Option, none, some, List, [], ◌∷◌, ◌++◌, map, append_assoc,
  append-nil, arith, nat_beq, if◌then◌else◌, nat_eq, Str, str_eq,
}
use technician.Common.Text.{codes, has_prefix}
use technician.Remote.{
  bytes_type, Wire, MetricType, Metric, MetricFamily, sample_value, sort_pairs, metric_prefix,
  encode_label, encode_sample, append_labels,
}
use technician.Remote.Decode.{
  Reader, Undoes, text, fixed, number, Field, AllFit, read_fields, put, type_of, bytes_of,
  read_fields-put,
}

-- A series with one sample.
pub record Series : Type 0 where
  pub labels : List (Str × Str)
  pub bits : ℕ
  pub millis : ℕ

label_of : Option (List Field) → Option (Str × Str)
label_of (some ((m, text k) ∷ (n, text v) ∷ [])) =
    if nat_beq m 1 && nat_beq n 2 then some (k, v) else none
label_of _ = none

sample_of : Option (List Field) → Option (ℕ × ℕ)
sample_of (some ((m, fixed v) ∷ (n, number t) ∷ [])) =
    if nat_beq m 1 && nat_beq n 2 then some (v, t) else none
sample_of _ = none

with_label : Option (Str × Str) → Option Series → Option Series
with_label (some p) (some s) = some (record s { labels = p ∷ s.labels })
with_label _ _ = none

only_sample : Option (ℕ × ℕ) → List Field → Option Series
only_sample (some (v, t)) [] = some (record { labels = []; bits = v; millis = t })
only_sample _ _ = none

cons_series : Option Series → Option (List Series) → Option (List Series)
cons_series (some s) (some ss) = some (s ∷ ss)
cons_series _ _ = none

module _ (r : Reader) where
  -- labels, which are field 1, and then one sample, which is field 2
  series_of : List Field → Option Series
  unfolding label_of sample_of with_label only_sample
  series_of [] = none
  series_of ((n, text b) ∷ fs) =
      if nat_beq n 1
      then with_label (label_of (read_fields r b)) (series_of fs)
      else if nat_beq n 2
      then only_sample (sample_of (read_fields r b)) fs
      else none
  series_of (f ∷ fs) = none

  read_series : Option (List Field) → Option Series
  unfolding series_of
  read_series none = none
  read_series (some fs) = series_of fs

  request_of : List Field → Option (List Series)
  unfolding read_series cons_series
  request_of [] = some []
  request_of ((n, text b) ∷ fs) =
      if nat_beq n 1 then cons_series (read_series (read_fields r b)) (request_of fs) else none
  request_of (f ∷ fs) = none

  read_request : Option (List Field) → Option (List Series)
  unfolding request_of
  read_request none = none
  read_request (some fs) = request_of fs

  -- The series of a request.
  pub decode_request : Str → Option (List Series)
  unfolding read_request
  decode_request s = read_request (read_fields r s)

-- The series that are to be sent: one for each metric with a value in a family of this program, with
-- its labels and its name in order.
module _ {F : Type 0} (bits : F → ℕ) (ts_millis : ℕ) where
  unfoldable pub series_with : Str → Metric F → Option F → List Series → List Series
  series_with name m none rest = rest
  series_with name m (some val) rest =
      (record {
        labels = sort_pairs ((codes "__name__", name) ∷ m.labels);
        bits = bits val;
        millis = ts_millis;
      })
      ∷ rest

  unfoldable pub metrics_series : Str → MetricType → List (Metric F) → List Series
  unfolding series_with
  metrics_series name typ [] = []
  metrics_series name typ (m ∷ ms) =
      series_with name m (sample_value typ m) (metrics_series name typ ms)

  unfoldable pub all_series : List (MetricFamily F) → List Series
  unfolding metrics_series
  all_series [] = []
  all_series (mf ∷ mfs) =
      if has_prefix mf.name metric_prefix
      then metrics_series mf.name mf.typ mf.metrics ++ all_series mfs
      else all_series mfs

module _ (w : Wire) where
  label_fields : Str → Str → List Field
  label_fields k v = (1, text k) ∷ (2, text v) ∷ []

  encode_label-put : (k v : Str) → encode_label w k v ≡ put w (label_fields k v)
  unfolding encode_label put label_fields type_of bytes_of
  encode_label-put k v = simp (append_assoc, append-nil)

  encode_sample-put : (v t : ℕ) → encode_sample w v t ≡ put w ((1, fixed v) ∷ (2, number t) ∷ [])
  unfolding encode_sample put type_of bytes_of
  encode_sample-put v t = simp (append_assoc, append-nil)

  -- the fields of a series
  pub series_fields : List (Str × Str) → ℕ → ℕ → List Field
  series_fields [] v t = (2, text (encode_sample w v t)) ∷ []
  series_fields ((k, l) ∷ ps) v t = (1, text (encode_label w k l)) ∷ series_fields ps v t

  pub put-append : (fs gs : List Field) → put w (fs ++ gs) ≡ put w fs ++ put w gs
  unfolding put
  put-append [] gs = refl
  put-append ((n, v) ∷ fs) gs = simp (put-append fs gs, append_assoc)

  pub append_labels-put :
      (ps : List (Str × Str)) (v t : ℕ) (ts : Str)
      → (append_labels w ps ts ++ w.tag 2 bytes_type) ++ w.bytes (encode_sample w v t)
        ≡ ts ++ put w (series_fields ps v t)
  unfolding append_labels put series_fields type_of bytes_of
  append_labels-put [] v t ts = simp (append_assoc, append-nil)
  append_labels-put ((k, l) ∷ ps) v t ts =
      append_labels-put ps v t ((ts ++ w.tag 1 bytes_type) ++ w.bytes (encode_label w k l))
      ∙ simp (append_assoc)

  -- the field of a series in a request
  unfoldable pub series_field : Series → Field
  series_field s = (1, text (put w (series_fields s.labels s.bits s.millis)))

-- Numbers of 64 bits.
abbrev pub AllSized : List Series → Type 0
AllSized [] = Unit {0}
AllSized (s ∷ ss) = (s.bits < 2 ^ 64) × (s.millis < 2 ^ 64) × AllSized ss

module _ (r : Reader) (w : Wire) (u : Undoes r w) where
  read-encode_label : (k l : Str) → label_of (read_fields r (encode_label w k l)) ≡ some (k, l)
  unfolding label_of label_fields
  read-encode_label k l =
      rw
        (
          encode_label-put w k l,
          read_fields-put r w u (label_fields w k l)
              (omega arith, omega arith, tt, (omega arith, omega arith, tt, tt)),
        )
        refl

  read-encode_sample :
      (v t : ℕ)
      → v < 2 ^ 64
      → t < 2 ^ 64
      → sample_of (read_fields r (encode_sample w v t)) ≡ some (v, t)
  unfolding sample_of
  read-encode_sample v t h k =
      rw
        (
          encode_sample-put w v t,
          read_fields-put r w u ((1, fixed v) ∷ (2, number t) ∷ [])
              (omega arith, omega arith, h, (omega arith, omega arith, k, tt)),
        )
        refl

  series_of-series_fields :
      (ps : List (Str × Str)) (v t : ℕ)
      → v < 2 ^ 64
      → t < 2 ^ 64
      → series_of r (series_fields w ps v t) ≡ some (record { labels = ps; bits = v; millis = t })
  unfolding series_of series_fields with_label only_sample
  series_of-series_fields [] v t h k = rw (read-encode_sample v t h k)
  series_of-series_fields ((j, l) ∷ ps) v t h k =
      rw (read-encode_label j l, series_of-series_fields ps v t h k) refl

  series_fields-AllFit : (ps : List (Str × Str)) (v t : ℕ) → AllFit (series_fields w ps v t)
  unfolding series_fields
  series_fields-AllFit [] v t = (omega arith, omega arith, tt, tt)
  series_fields-AllFit ((j, l) ∷ ps) v t =
      (omega arith, omega arith, tt, series_fields-AllFit ps v t)

  request_of-series_field :
      (ss : List Series) → AllSized ss → request_of r (map (series_field w) ss) ≡ some ss
  unfolding request_of series_field read_series cons_series
  request_of-series_field [] h = refl
  request_of-series_field (s ∷ ss) (a, b, c) =
      rw
        (
          read_fields-put r w u (series_fields w s.labels s.bits s.millis)
              (series_fields-AllFit s.labels s.bits s.millis),
          series_of-series_fields s.labels s.bits s.millis a b,
          request_of-series_field ss c,
        )
        refl

  series_field-AllFit : (ss : List Series) → AllFit (map (series_field w) ss)
  unfolding series_field
  series_field-AllFit [] = tt
  series_field-AllFit (s ∷ ss) = (omega arith, omega arith, tt, series_field-AllFit ss)

  pub decode_request-put :
      (ss : List Series)
      → AllSized ss
      → decode_request r (put w (map (series_field w) ss)) ≡ some ss
  unfolding decode_request read_request
  decode_request-put ss h =
      rw (read_fields-put r w u (map (series_field w) ss) (series_field-AllFit ss))
        (request_of-series_field ss h)
