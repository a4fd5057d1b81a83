-- ===== src/Tests/Remote.antt =====
-- The round trip of a write request with a simple way to write numbers and bytes.
use technician.Common.{
  ℕ, ◌^◌, ◌<◌, ◌≡◌, refl, Bool, true, false, Option, none, some, List, [], ◌∷◌, arith, nat_beq,
  if◌then◌else◌, length, take, drop, take-append, drop-append, nat_eq, Str, str_eq, ◌⊎◌, inl, inr,
}
use technician.Common.Int.{pos}
use technician.Common.Text.{codes, has_prefix}
use technician.Common.Order.{str_less}
use technician.Remote.{
  WireType, varint_type, fixed64_type, bytes_type, Wire, gauge, other_type, Metric, MetricFamily,
  encode_time_series, sort_pairs,
}
use technician.Remote.Decode.{Reader, Undoes}
use technician.Remote.RoundTrip.{all_series}
use technician.Remote.Writer.{
  Options, AwsConfig, Writer, default_interval, new_writer, Endpoint, push,
}
use technician.Remote.Writer.Delivery.{TookSeries, push-delivers}

abbrev type_code : WireType → ℕ
type_code varint_type = 0
type_code fixed64_type = 1
type_code bytes_type = 2

abbrev type_of_code : ℕ → WireType
type_of_code n =
    if nat_beq n 0 then varint_type else if nat_beq n 1 then fixed64_type else bytes_type

-- A number is one element, and bytes stand behind their number.
abbrev plain_wire : Wire
plain_wire = record {
  tag = λ n t. n ∷ type_code t ∷ [];
  varint = λ v. v ∷ [];
  fixed64 = λ v. v ∷ [];
  bytes = λ b. length b ∷ b;
}

abbrev read_tag : Str → Option ((ℕ × WireType) × Str)
read_tag [] = none
read_tag (n ∷ []) = none
read_tag (n ∷ c ∷ rest) = some ((n, type_of_code c), rest)

abbrev read_number : Str → Option (ℕ × Str)
read_number [] = none
read_number (v ∷ rest) = some (v, rest)

abbrev read_counted : Str → Option (Str × Str)
read_counted [] = none
read_counted (n ∷ s) = some (take n s, drop n s)

abbrev plain_reader : Reader
plain_reader = record {
  read_tag = read_tag;
  read_varint = read_number;
  read_fixed64 = read_number;
  read_bytes = read_counted;
}

tag_read :
    (n : ℕ) (t : WireType) (rest : Str) → read_tag (n ∷ type_code t ∷ rest) ≡ some ((n, t), rest)
tag_read n varint_type rest = refl
tag_read n fixed64_type rest = refl
tag_read n bytes_type rest = refl

plain-Undoes : Undoes plain_reader plain_wire
plain-Undoes = record {
  undoes_tag = λ n t rest a b. tag_read n t rest;
  undoes_varint = λ v rest h. refl;
  undoes_fixed64 = λ v rest h. refl;
  undoes_bytes = λ b rest. rw (take-append b rest, drop-append b rest);
  no_tag = refl;
  tag_pos = λ n t. omega arith;
}

abbrev a_metric : Metric Bool
a_metric = record {
  labels = (codes "zone", codes "a") ∷ (codes "name", codes "web") ∷ [];
  gauge_value = true;
  counter_value = false;
  untyped_value = false;
}

abbrev families : List (MetricFamily Bool)
families =
    (record { name = codes "technician_up"; typ = gauge; metrics = a_metric ∷ [] })
    ∷ (record { name = codes "technician_lag"; typ = other_type; metrics = a_metric ∷ [] })
    ∷ (record { name = codes "go_threads"; typ = gauge; metrics = a_metric ∷ [] })
    ∷ []

abbrev bit_of : Bool → ℕ
bit_of b = if b then 1 else 0

bit_of-lt : (b : Bool) → bit_of b < 2 ^ 64
bit_of-lt true = omega arith
bit_of-lt false = omega arith

abbrev no_zone : Options Bool
no_zone = record {
  url = codes "https://aps/write";
  interval = pos 0;
  sig_v4 = true;
  region = [];
  headers = (codes "User-Agent", codes "mine") ∷ [];
  gatherer = some (inr families);
}

abbrev aws : Option Str → Str ⊎ AwsConfig ℕ
aws region = inr (record { region = codes "eu-west-1"; credentials = inr 7 })

abbrev writer : Writer Bool ℕ
writer = record {
  url = codes "https://aps/write";
  interval = default_interval;
  headers = (codes "User-Agent", codes "mine") ∷ [];
  gatherer = inr families;
  creds = some (inr 7);
  region = codes "eu-west-1";
}

new_writer_runs : new_writer (inl []) aws no_zone ≡ inr writer
unfolding new_writer
new_writer_runs = refl

abbrev endpoint : Endpoint ℕ
endpoint = record {
  now_millis = 1700;
  compress = λ s. s;
  canonical = λ s. s;
  new_request = λ url. none;
  sum256_hex = λ body. length body ∷ [];
  sign_http = λ c h sum service region. inr ((codes "Authorization", c ∷ sum) ∷ h);
  send = λ url h body. inr 200;
  status_text = λ n. n ∷ [];
}

push_succeeds : push endpoint writer plain_wire bit_of ≡ none
unfolding push has_prefix encode_time_series sort_pairs str_less
push_succeeds = refl

push-delivers_example :
    (mfs : List (MetricFamily Bool)) × (writer.gatherer ≡ inr mfs)
    × ((all_series bit_of 1700 mfs ≡ [])
        ⊎ TookSeries endpoint writer plain_reader (λ s. s) (all_series bit_of 1700 mfs))
push-delivers_example =
    push-delivers endpoint writer plain_reader plain_wire bit_of (λ s. s) plain-Undoes bit_of-lt
      (omega arith) (λ s. refl) push_succeeds
