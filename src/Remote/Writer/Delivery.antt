-- ===== src/Remote/Writer/Delivery.antt =====
-- A push without an error has delivered every series.
use technician.Common.{
  ℕ, ◌/◌, ◌^◌, ◌<◌, ◌≡◌, refl, sym, ap, ◌∙◌, ◌⊎◌, inl, inr, Option, none, some, List, [], arith,
  Option-cases, nat_eq, Str, str_eq,
}
use technician.Common.Maps.{Map}
use technician.Remote.{Wire, MetricFamily}
use technician.Remote.Decode.{Reader, Undoes}
use technician.Remote.RoundTrip.{Series, all_series}
use technician.Remote.Whole.{received, encode_write_request-received}
use technician.Remote.Writer.{
  Writer, Endpoint, answered, delivered, signed, with_creds, authorized, built, encoded, gathered,
  push,
}

module _ {F C : Type 0} (e : Endpoint C) (w : Writer F C) where
  -- the endpoint has taken a body, under some headers
  pub Took : Str → Type 0
  Took body =
      (h : Map Str Str) × (status : ℕ) × (e.send w.url h body ≡ inr status) × (status / 100 ≡ 2)

  answered-takes :
      (a : Str ⊎ ℕ) → answered e w a ≡ none → (status : ℕ) × (a ≡ inr status) × (status / 100 ≡ 2)
  unfolding answered
  answered-takes (inl err) h = absurd (ground (arith, h))
  answered-takes (inr status) h = (status, refl, ground (arith, h))

  delivered-Took : (h : Map Str Str) (body : Str) → delivered e w h body ≡ none → Took body
  unfolding delivered Took
  delivered-Took h body d =
      let (status, p, q) = answered-takes (e.send w.url h body) d in (h, status, p, q)

  signed-Took : (body : Str) (h : Str ⊎ Map Str Str) → signed e w body h ≡ none → Took body
  unfolding signed
  signed-Took body (inl err) s = absurd (ground (arith, s))
  signed-Took body (inr h) s = delivered-Took h body s

  with_creds-Took :
      (h : Map Str Str) (body : Str) (r : Str ⊎ C) → with_creds e w h body r ≡ none → Took body
  unfolding with_creds
  with_creds-Took h body (inl err) s = absurd (ground (arith, s))
  with_creds-Took h body (inr c) s = signed-Took body _ s

  authorized-Took : (h : Map Str Str) (body : Str) → authorized e w h body ≡ none → Took body
  unfolding authorized
  authorized-Took h body s = elim (Option-cases w.creds) [
    | inl n ↦ delivered-Took h body (ground (arith, n, s))
    | inr (r, p) ↦ with_creds-Took h body r (ground (arith, p, s))
  ]

  built-Took : (body : Str) (o : Option Str) → built e w body o ≡ none → Took body
  unfolding built
  built-Took body (some err) s = absurd (ground (arith, s))
  built-Took body none s = authorized-Took _ body s

  encoded-Took :
      (o : Option Str)
      → encoded e w o ≡ none
      → (o ≡ none) ⊎ ((payload : Str) × (o ≡ some payload) × Took (e.compress payload))
  unfolding encoded
  encoded-Took none s = inl refl
  encoded-Took (some payload) s = inr (payload, refl, built-Took (e.compress payload) _ s)

none_read : (ss : List Series) → some ss ≡ some [] → ss ≡ []
none_read ss h = ground (arith, h)

-- The endpoint has taken a body that is read, when it is decompressed, as those series.
pub TookSeries :
    {F C : Type 0} → Endpoint C → Writer F C → Reader → (Str → Str) → List Series → Type 0
unfolding Took
TookSeries e w r decompress ss =
    (body : Str) × Took e w body × (received r (some (decompress body)) ≡ some ss)

module _ {F C : Type 0} (e : Endpoint C) (w : Writer F C) (r : Reader) (wire : Wire) (bits : F → ℕ)
    (decompress : Str → Str) (u : Undoes r wire) (bits_fit : (x : F) → bits x < 2 ^ 64)
    (millis_fit : e.now_millis < 2 ^ 64) (undoes : (s : Str) → decompress (e.compress s) ≡ s) where
  encoded-delivers :
      (o : Option Str) (ss : List Series)
      → received r o ≡ some ss
      → encoded e w o ≡ none
      → (ss ≡ []) ⊎ TookSeries e w r decompress ss
  unfolding TookSeries
  encoded-delivers o ss h s = elim (encoded-Took e w o s) [
    | inl p ↦ inl (none_read ss (sym h ∙ ap (received r) p))
    | inr (payload, p, t) ↦ inr (
      e.compress payload,
      t,
      ap (λ x. received r (some x)) (undoes payload) ∙ ap (received r) (sym p) ∙ h,
    )
  ]

  gathered-delivers :
      (g : Str ⊎ List (MetricFamily F))
      → gathered e w wire bits g ≡ none
      → (mfs : List (MetricFamily F)) × (g ≡ inr mfs)
        × ((all_series bits e.now_millis mfs ≡ [])
            ⊎ TookSeries e w r decompress (all_series bits e.now_millis mfs))
  unfolding gathered
  gathered-delivers (inl err) s = absurd (ground (arith, s))
  gathered-delivers (inr mfs) s = (
    mfs,
    refl,
    encoded-delivers _ _
        (encode_write_request-received r wire bits e.now_millis mfs u bits_fit millis_fit) s,
  )

  -- In a push without an error, the metrics were gathered, and either there is no series to send or the
  -- endpoint has answered with a status 2xx to a body that, decompressed and read, is exactly the
  -- series to be sent.
  pub push-delivers :
      push e w wire bits ≡ none
      → (mfs : List (MetricFamily F)) × (w.gatherer ≡ inr mfs)
        × ((all_series bits e.now_millis mfs ≡ [])
            ⊎ TookSeries e w r decompress (all_series bits e.now_millis mfs))
  unfolding push
  push-delivers = gathered-delivers w.gatherer
