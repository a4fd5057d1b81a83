-- ===== src/Remote/Writer.antt =====
-- internal/remotewrite/remotewrite.go: the writer, as New makes it, and one push.
pub mod Delivery
use technician.Common.{
  ℕ, ◌/◌, ◌⊎◌, inl, inr, not, Option, none, some, List, [], ◌∷◌, ◌++◌, ◌==◌, nat_beq, if◌then◌else◌,
  nat_eq, Str, str_eq, Bool,
}
use technician.Common.Int.{ℤ, pos, leb_ℤ}
use technician.Common.Maps.{Map, insert}
use technician.Common.Text.{codes}
use technician.Remote.{encode_write_request, Wire, MetricFamily}

-- `Options`, where `region` is empty if it is not set. A gatherer is what it gives, families or an error.
pub record Options (F : Type 0) : Type 0 where
  pub url : Str
  pub interval : ℤ
  pub sig_v4 : Bool
  pub region : Str
  pub headers : Map Str Str
  pub gatherer : Option (Str ⊎ List (MetricFamily F))

-- The configuration of the AWS library; its provider is what it gives, credentials or an error.
pub record AwsConfig (C : Type 0) : Type 0 where
  pub region : Str
  pub credentials : Str ⊎ C

-- `Writer`, with the provider if it has a signer
pub record Writer (F C : Type 0) : Type 0 where
  pub url : Str
  pub interval : ℤ
  pub headers : Map Str Str
  pub gatherer : Str ⊎ List (MetricFamily F)
  pub creds : Option (Str ⊎ C)
  pub region : Str

-- 15 seconds
abbrev pub default_interval : ℤ
default_interval = pos 15000000000

module _ {F C : Type 0} where
  with_config : Writer F C → Str ⊎ AwsConfig C → Str ⊎ Writer F C
  with_config w (inl err) = inl (codes "loading AWS config for SigV4: " ++ err)
  with_config w (inr a) =
      if a.region == []
      then inl (codes "remote_write_sigv4 needs a region (set remote_write_region or AWS_REGION)")
      else inr (record w { creds = some a.credentials; region = a.region })

  -- `New`, of the default gatherer and of the loading of a configuration for the region that is set
  unfoldable pub new_writer :
      Str ⊎ List (MetricFamily F) → (Option Str → Str ⊎ AwsConfig C) → Options F → Str ⊎ Writer F C
  unfolding with_config
  new_writer default_gatherer load opts =
      if opts.url == []
      then inl (codes "remote-write URL is empty")
      else let w : Writer F C = record {
        url = opts.url;
        interval = if leb_ℤ opts.interval (pos 0) then default_interval else opts.interval;
        headers = opts.headers;
        gatherer = elim opts.gatherer [ none ↦ default_gatherer | some g ↦ g ];
        creds = none;
        region = [];
      } in
        if opts.sig_v4
        then with_config w (load (if opts.region == [] then none else some opts.region))
        else inr w

-- What `push` calls: the clock, snappy, the canonical names of headers, the error of a request to a
-- URL, the hash, the signing for a service and a region, and the client, with an error or the status.
pub record Endpoint (C : Type 0) : Type 0 where
  pub now_millis : ℕ
  pub compress : Str → Str
  pub canonical : Str → Str
  pub new_request : Str → Option Str
  pub sum256_hex : Str → Str
  pub sign_http : C → Map Str Str → Str → Str → Str → Str ⊎ Map Str Str
  pub send : Str → Map Str Str → Str → Str ⊎ ℕ
  pub status_text : ℕ → Str

unfoldable pub set_all : (Str → Str) → Map Str Str → Map Str Str → Map Str Str
set_all canonical [] h = h
set_all canonical ((k, v) ∷ rest) h = set_all canonical rest (insert (canonical k) v h)

abbrev own_headers : Map Str Str
own_headers =
    (codes "Content-Encoding", codes "snappy")
    ∷ (codes "Content-Type", codes "application/x-protobuf")
    ∷ (codes "X-Prometheus-Remote-Write-Version", codes "0.1.0")
    ∷ (codes "User-Agent", codes "technician-remote-write")
    ∷ []

-- the headers of a push: the user's replace those of the same name
unfoldable pub push_headers : (Str → Str) → Map Str Str → Map Str Str
unfolding set_all
push_headers canonical headers = set_all canonical headers (set_all canonical own_headers [])

module _ {F C : Type 0} (e : Endpoint C) (w : Writer F C) where
  answered : Str ⊎ ℕ → Option Str
  answered (inl err) = some err
  answered (inr status) =
      if not (nat_beq (status / 100) 2)
      then some (codes "remote-write endpoint returned " ++ e.status_text status)
      else none

  -- the client's call with headers and a body
  delivered : Map Str Str → Str → Option Str
  unfolding answered
  delivered h body = answered (e.send w.url h body)

  signed : Str → Str ⊎ Map Str Str → Option Str
  unfolding delivered
  signed body (inl err) = some (codes "signing request: " ++ err)
  signed body (inr h) = delivered h body

  with_creds : Map Str Str → Str → Str ⊎ C → Option Str
  unfolding signed
  with_creds h body (inl err) = some (codes "retrieving AWS credentials: " ++ err)
  with_creds h body (inr c) =
      signed body (e.sign_http c h (e.sum256_hex body) (codes "aps") w.region)

  authorized : Map Str Str → Str → Option Str
  unfolding with_creds
  authorized h body = elim w.creds [ none ↦ delivered h body | some r ↦ with_creds h body r ]

  built : Str → Option Str → Option Str
  unfolding authorized push_headers
  built body (some err) = some err
  built body none = authorized (push_headers e.canonical w.headers) body

  encoded : Option Str → Option Str
  unfolding built
  encoded none = none
  encoded (some payload) = built (e.compress payload) (e.new_request w.url)

  gathered : Wire → (F → ℕ) → Str ⊎ List (MetricFamily F) → Option Str
  unfolding encoded encode_write_request
  gathered wire bits (inl err) = some (codes "gathering metrics: " ++ err)
  gathered wire bits (inr mfs) = encoded (encode_write_request wire bits e.now_millis mfs)

  -- `push`, with its error or nothing
  unfoldable pub push : Wire → (F → ℕ) → Option Str
  unfolding gathered
  push wire bits = gathered wire bits w.gatherer

-- `Run`: a push at each tick, whose error is only logged, so that it stops no later one
unfoldable pub run : {F C : Type 0} → Writer F C → Wire → (F → ℕ) → List (Endpoint C) → List Str
unfolding push
run w wire bits [] = []
run w wire bits (e ∷ es) =
    let rest = run w wire bits es in
    elim (push e w wire bits) [ none ↦ rest | some err ↦ err ∷ rest ]
