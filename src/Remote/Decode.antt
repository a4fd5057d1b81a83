-- ===== src/Remote/Decode.antt =====
-- What a reader of the protocol gets from an encoded request.
use technician.Common.{
  ℕ, zero, suc, ◌^◌, ◌≤◌, ◌<◌, ◌≡◌, refl, Option, none, some, List, [], ◌∷◌, ◌++◌, arith,
  if◌then◌else◌, length, length-append, ◌==◌, nat_eq, Str, str_eq,
}
use technician.Remote.{WireType, varint_type, fixed64_type, bytes_type, Wire}

-- The functions `Consume…` of package protowire: what is read, and the rest.
pub record Reader : Type 0 where
  pub read_tag : Str → Option ((ℕ × WireType) × Str)
  pub read_varint : Str → Option (ℕ × Str)
  pub read_fixed64 : Str → Option (ℕ × Str)
  pub read_bytes : Str → Option (Str × Str)

-- They undo the functions `Append…` on the numbers that these take, and a tag has a byte at least.
pub record Undoes (r : Reader) (w : Wire) : Type 0 where
  pub undoes_tag :
      (n : ℕ) (t : WireType) (rest : Str)
      → 0 < n
      → n < 2 ^ 29
      → r.read_tag (w.tag n t ++ rest) ≡ some ((n, t), rest)
  pub undoes_varint :
      (v : ℕ) (rest : Str) → v < 2 ^ 64 → r.read_varint (w.varint v ++ rest) ≡ some (v, rest)
  pub undoes_fixed64 :
      (v : ℕ) (rest : Str) → v < 2 ^ 64 → r.read_fixed64 (w.fixed64 v ++ rest) ≡ some (v, rest)
  pub undoes_bytes : (b rest : Str) → r.read_bytes (w.bytes b ++ rest) ≡ some (b, rest)
  pub no_tag : r.read_tag [] ≡ none
  pub tag_pos : (n : ℕ) (t : WireType) → 0 < length (w.tag n t)

-- The value of a field.
pub data Value : Type 0 where
  text : Str → Value
  fixed number : ℕ → Value

abbrev pub Field : Type 0
Field = ℕ × Value

module _ (r : Reader) where
  with_text : Option (Str × Str) → Option (Value × Str)
  with_text none = none
  with_text (some (b, rest)) = some (text b, rest)

  with_number : (ℕ → Value) → Option (ℕ × Str) → Option (Value × Str)
  with_number make none = none
  with_number make (some (v, rest)) = some (make v, rest)

  read_value : WireType → Str → Option (Value × Str)
  unfolding with_text with_number
  read_value bytes_type s = with_text (r.read_bytes s)
  read_value fixed64_type s = with_number fixed (r.read_fixed64 s)
  read_value varint_type s = with_number number (r.read_varint s)

  cons_field : ℕ → Value → Option (List Field) → Option (List Field)
  cons_field n v none = none
  cons_field n v (some fs) = some ((n, v) ∷ fs)

  -- The fields of a message, with fuel.
  after_value : (Str → Option (List Field)) → ℕ → Option (Value × Str) → Option (List Field)
  unfolding cons_field
  after_value more n none = none
  after_value more n (some (v, rest)) = cons_field n v (more rest)

  after_tag :
      (Str → Option (List Field)) → Str → Option ((ℕ × WireType) × Str) → Option (List Field)
  unfolding after_value read_value
  after_tag more s none = if s == [] then some [] else none
  after_tag more s (some ((n, t), rest)) = after_value more n (read_value t rest)

  read_fields_with : ℕ → Str → Option (List Field)
  unfolding after_tag
  read_fields_with zero s = none
  read_fields_with (suc f) s = after_tag (read_fields_with f) s (r.read_tag s)

  -- Each field has a byte at least, so that one more round than bytes is enough.
  pub read_fields : Str → Option (List Field)
  unfolding read_fields_with
  read_fields s = read_fields_with (suc (length s)) s

module _ (w : Wire) where
  unfoldable pub type_of : Value → WireType
  type_of (text b) = bytes_type
  type_of (fixed v) = fixed64_type
  type_of (number v) = varint_type

  unfoldable pub bytes_of : Value → Str
  bytes_of (text b) = w.bytes b
  bytes_of (fixed v) = w.fixed64 v
  bytes_of (number v) = w.varint v

  -- The bytes of fields.
  unfoldable pub put : List Field → Str
  unfolding type_of bytes_of
  put [] = []
  put ((n, v) ∷ fs) = w.tag n (type_of v) ++ (bytes_of v ++ put fs)

-- A field that protobuf has.
abbrev pub Fits : Value → Type 0
Fits (text b) = Unit {0}
Fits (fixed v) = v < 2 ^ 64
Fits (number v) = v < 2 ^ 64

abbrev pub AllFit : List Field → Type 0
AllFit [] = Unit {0}
AllFit ((n, v) ∷ fs) = (0 < n) × (n < 2 ^ 29) × Fits v × AllFit fs

module _ (r : Reader) (w : Wire) (u : Undoes r w) where
  read_value-bytes_of :
      (v : Value) (rest : Str)
      → Fits v
      → read_value r (type_of w v) (bytes_of w v ++ rest) ≡ some (v, rest)
  unfolding read_value type_of bytes_of with_text with_number
  read_value-bytes_of (text b) rest h = rw (u.undoes_bytes b rest)
  read_value-bytes_of (fixed v) rest h = rw (u.undoes_fixed64 v rest h)
  read_value-bytes_of (number v) rest h = rw (u.undoes_varint v rest h)

  read_fields_with-put :
      (fs : List Field) (f : ℕ)
      → AllFit fs
      → length fs < f
      → read_fields_with r f (put w fs) ≡ some fs
  unfolding read_fields_with put after_tag after_value cons_field
  read_fields_with-put fs zero h l = elim l [ ]
  read_fields_with-put [] (suc f) h l = rw u.no_tag
  read_fields_with-put ((n, v) ∷ fs) (suc f) (a, b, c, d) l =
      rw
        (
          u.undoes_tag n (type_of w v) (bytes_of w v ++ put w fs) a b,
          read_value-bytes_of v (put w fs) c,
          read_fields_with-put fs f d (omega arith),
        )
        refl

  pub length-put : (fs : List Field) → length fs ≤ length (put w fs)
  unfolding put
  length-put [] = omega arith
  length-put ((n, v) ∷ fs) = omega (
    arith,
    length-put fs,
    u.tag_pos n (type_of w v),
    length-append (w.tag n (type_of w v)) (bytes_of w v ++ put w fs),
    length-append (bytes_of w v) (put w fs),
  )

  pub read_fields-put : (fs : List Field) → AllFit fs → read_fields r (put w fs) ≡ some fs
  unfolding read_fields
  read_fields-put fs h =
      read_fields_with-put fs (suc (length (put w fs))) h (omega (arith, length-put fs))
