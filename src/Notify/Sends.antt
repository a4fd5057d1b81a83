-- ===== src/Notify/Sends.antt =====
-- One call of `dispatch`: what its keys tell apart, which webhooks send, and what is recorded.
use technician.Common.{
  ℕ, zero, suc, ◌+◌, ◌<◌, ◌≡◌, refl, sym, subst, ◌∙◌, ◌≢◌, ◌⊎◌, inl, inr, Bool, false, none, some,
  List, [], ◌∷◌, arith, nat_beq, if◌then◌else◌, nat_beq_iff, Bool-cases, get_elem?, any, ◌==◌,
  nat_eq, Str, str_beq_iff, str_eq, ==-true,
}
use technician.Common.Maps.{Map, lookup, insert, lookup-insert}
use technician.Common.Text.{decimal}
use technician.Common.Text.Split.{Free, first_split, last_split}
use technician.Common.Text.Decimal.{decimal-Free, decimal-injective}
use technician.Notify.Manager.{
  Event, EventType, check_down, event_text, Webhook, cooldown_key, sends, dispatch_from,
}

event_text-Free : (t : EventType) → Free b':' (event_text t)
unfolding event_text
event_text-Free check_down = omega arith
event_text-Free _ = omega arith

-- A cooldown key tells the webhook, the check and the type of event: none of the parts that could
-- run together holds the colon that stands between them.
pub cooldown_key-injective :
    (i j : ℕ) (c d : Str) (t u : EventType)
    → cooldown_key i c t ≡ cooldown_key j d u
    → (i ≡ j) × (c ≡ d) × (event_text t ≡ event_text u)
unfolding cooldown_key
cooldown_key-injective i j c d t u e =
    let (p, q) = first_split b':' (decimal i) (decimal j) _ _ (decimal-Free i) (decimal-Free j) e in
    let (r, s) = last_split b':' c d _ _ (event_text-Free t) (event_text-Free u) q in
    (decimal-injective i j p, r, s)

abbrev pub elem : ℕ → List ℕ → Bool
elem n is = any (λ i. nat_beq i n) is

key_ne :
    (i j : ℕ) (c d : Str) (t u : EventType)
    → i ≢ j
    → (cooldown_key i c t == cooldown_key j d u) ≡ false
key_ne i j c d t u h = elim (Bool-cases (cooldown_key i c t == cooldown_key j d u)) [
  | inl same ↦ absurd (h (cooldown_key-injective i j c d t u (==-true same)).0)
  | inr other ↦ other
]

module _ (now : ℕ) (ev : Event) where
  abbrev key_at : ℕ → Str
  key_at i = cooldown_key i ev.check ev.typ

  sends-cong :
      (i : ℕ) (w : Webhook) (m m' : Map Str ℕ)
      → lookup (key_at i) m ≡ lookup (key_at i) m'
      → sends i w now ev m ≡ sends i w now ev m'
  unfolding sends
  sends-cong i w m m' e = rw e

  -- the map after webhook `i`
  abbrev after_one : ℕ → Webhook → Map Str ℕ → Map Str ℕ
  after_one i w m = if sends i w now ev m then insert (key_at i) now m else m

  after_one-other :
      (i n : ℕ) (w : Webhook) (m : Map Str ℕ)
      → i ≢ n
      → lookup (key_at n) (after_one i w m) ≡ lookup (key_at n) m
  after_one-other i n w m h = ground (
    arith,
    lookup-insert (key_at i) (key_at n) now m,
    key_ne i n ev.check ev.check ev.typ ev.typ h,
  )

  dispatch_from-below :
      (i n : ℕ) (ws : List Webhook) (m : Map Str ℕ)
      → n < i
      → (elem n (dispatch_from i ws now ev m).1 ≡ false)
        × (lookup (key_at n) (dispatch_from i ws now ev m).0 ≡ lookup (key_at n) m)
  unfolding dispatch_from
  dispatch_from-below i n [] m h = (refl, refl)
  dispatch_from-below i n (w ∷ ws) m h =
      let rest = dispatch_from-below (suc i) n ws (after_one i w m) (omega arith) in
      (ground (arith, rest), rest.1 ∙ after_one-other i n w m (omega arith))

  -- whether webhook `n` of those that stand from `i` on sends
  abbrev pub sends_at : ℕ → List Webhook → ℕ → Map Str ℕ → Bool
  sends_at i [] n m = false
  sends_at i (w ∷ ws) n m = if nat_beq i n then sends i w now ev m else sends_at (suc i) ws n m

  sends_at-other :
      (i j n : ℕ) (w : Webhook) (ws : List Webhook) (m : Map Str ℕ)
      → j < i
      → j ≢ n
      → sends_at i ws n (after_one j w m) ≡ sends_at i ws n m
  sends_at-other i j n w [] m l h = refl
  sends_at-other i j n w (v ∷ vs) m l h =
      let rest = sends_at-other (suc i) j n w vs m (omega arith) h in
      elim (Bool-cases (nat_beq i n)) [
        | inl hit ↦ rw hit (
            sends-cong i v (after_one j w m) m (
              subst (λ q. lookup (key_at q) (after_one j w m) ≡ lookup (key_at q) m)
                (sym ((nat_beq_iff i n).0 hit)) (after_one-other j n w m h)))
        | inr miss ↦ rw miss rest
      ]

  pub dispatch_from-elem :
      (i n : ℕ) (ws : List Webhook) (m : Map Str ℕ)
      → elem n (dispatch_from i ws now ev m).1 ≡ sends_at i ws n m
  unfolding dispatch_from
  dispatch_from-elem i n [] m = refl
  dispatch_from-elem i n (w ∷ ws) m = elim (Bool-cases (nat_beq i n)) [
    | inl hit ↦
        let e : i ≡ n = (nat_beq_iff i n).0 hit in
        let below = (dispatch_from-below (suc i) n ws (after_one i w m) (omega arith)).0 in
        ground (arith, hit, below)
    | inr miss ↦
        let ne : i ≢ n = λ e. cc ((nat_beq_iff i n).1 e, miss) in
        let rest = dispatch_from-elem (suc i) n ws (after_one i w m) in
        let same = sends_at-other (suc i) i n w ws m (omega arith) ne in
        ground (arith, miss, rest, same)
  ]

  pub sends_at-get_elem? :
      (i n : ℕ) (ws : List Webhook) (m : Map Str ℕ)
      → sends_at i ws (i + n) m
        ≡ elim (get_elem? ws n) [ none ↦ false | some w ↦ sends (i + n) w now ev m ]
  sends_at-get_elem? i n [] m = refl
  sends_at-get_elem? i zero (w ∷ ws) m = let e : i + zero ≡ i = omega arith in rw e (ground arith)
  sends_at-get_elem? i (suc n) (w ∷ ws) m =
      let e : i + suc n ≡ suc i + n = omega arith in
      rw e (ground (arith, sends_at-get_elem? (suc i) n ws m))

  pub dispatch_from-last_sent :
      (i n : ℕ) (ws : List Webhook) (m : Map Str ℕ)
      → lookup (key_at n) (dispatch_from i ws now ev m).0
        ≡ (if elem n (dispatch_from i ws now ev m).1 then some now else lookup (key_at n) m)
  unfolding dispatch_from
  dispatch_from-last_sent i n [] m = refl
  dispatch_from-last_sent i n (w ∷ ws) m = elim (Bool-cases (nat_beq i n)) [
    | inl hit ↦
        let e : i ≡ n = (nat_beq_iff i n).0 hit in
        let below = dispatch_from-below (suc i) n ws (after_one i w m) (omega arith) in
        ground (
          arith,
          hit,
          below,
          lookup-insert (key_at i) (key_at n) now m,
          str_beq_iff (key_at i) (key_at n),
        )
    | inr miss ↦
        let ne : i ≢ n = λ e. cc ((nat_beq_iff i n).1 e, miss) in
        ground (
          arith,
          miss,
          dispatch_from-last_sent (suc i) n ws (after_one i w m),
          after_one-other i n w m ne,
        )
  ]

  -- Any entry that `dispatch` changes, it sets to the present instant.
  pub dispatch_from-changes :
      (i : ℕ) (ws : List Webhook) (m : Map Str ℕ) (k : Str)
      → (lookup k (dispatch_from i ws now ev m).0 ≡ lookup k m)
        ⊎ (lookup k (dispatch_from i ws now ev m).0 ≡ some now)
  unfolding dispatch_from
  dispatch_from-changes i [] m k = inl refl
  dispatch_from-changes i (w ∷ ws) m k = ground (
    arith,
    dispatch_from-changes (suc i) ws (after_one i w m) k,
    lookup-insert (key_at i) k now m,
  )
