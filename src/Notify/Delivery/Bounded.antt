-- ===== src/Notify/Delivery/Bounded.antt =====
-- How many sends there are at a time, and for one event.
use technician.Common.{
  ℕ, ◌+◌, ◌≤◌, ◌<◌, ◌≡◌, refl, sym, ap, ◌∙◌, ◌⊎◌, inl, inr, Bool, true, false, ◌&&◌, ◌||◌, List, [],
  ◌∷◌, ◌++◌, map, arith, nat_beq, every, length, select, nat_eq, str_eq,
}
use technician.Notify.Manager.{Event}
use technician.Notify.Delivery.{
  max_concurrent_sends, Stage, waiting, sending, sleeping, resending, over, Delivery, started,
  holds_place, places, Advance, acquire, sent, failed, wake, resent, Step, dispatched, advance,
  Reach, here, next,
}

-- The calls that a goroutine has made where it stands: it succeeds at the first or the second, and
-- gives up after the second only.
abbrev pub made : Stage → ℕ → Bool
made waiting n = nat_beq n 0
made sending n = nat_beq n 1
made sleeping n = nat_beq n 1
made resending n = nat_beq n 2
made (over true) n = nat_beq n 1 || nat_beq n 2
made (over false) n = nat_beq n 2

abbrev pub is_counted : Delivery → Bool
is_counted d = made d.stage d.sends

-- Whether a goroutine is in one of its two calls of `Send`.
abbrev pub is_in_send : Delivery → Bool
is_in_send d = elim d.stage [
  | waiting ↦ false
  | sending ↦ true
  | sleeping ↦ false
  | resending ↦ true
  | over b ↦ false
]

-- At most four goroutines are in a call of `Send`, and the calls of each are those of its stage.
abbrev pub IsBounded : List Delivery → Type 0
IsBounded ds = (length (select is_in_send ds) ≤ 4) × (every is_counted ds ≡ true)

-- At most four places are taken.
abbrev IsLimited : List Delivery → Type 0
IsLimited ds = (places ds ≤ max_concurrent_sends) × (every is_counted ds ≡ true)

-- Whoever sends has a place.
in_send-places : (ds : List Delivery) → length (select is_in_send ds) ≤ places ds
unfolding places holds_place
in_send-places [] = omega arith
in_send-places (d ∷ ds) = ground (arith, in_send-places ds)

places-append : (ds es : List Delivery) → places (ds ++ es) ≡ places ds + places es
unfolding places
places-append [] es = omega arith
places-append (d ∷ ds) es = omega (arith, places-append ds es)

every-append :
    (ds es : List Delivery)
    → every is_counted (ds ++ es) ≡ (every is_counted ds && every is_counted es)
every-append [] es = refl
every-append (d ∷ ds) es = ground (arith, every-append ds es)

started-places : (ev : Event) (is : List ℕ) → places (map (started ev) is) ≡ 0
unfolding places holds_place
started-places ev [] = refl
started-places ev (i ∷ is) = omega (arith, started-places ev is)

started-counted : (ev : Event) (is : List ℕ) → every is_counted (map (started ev) is) ≡ true
started-counted ev [] = refl
started-counted ev (i ∷ is) = started-counted ev is

-- One goroutine that goes on stays counted, and takes a place only if there is one.
Advance-counted :
    {taken : ℕ} {d d' : Delivery} → Advance taken d d' → is_counted d ≡ true → is_counted d' ≡ true
Advance-counted (acquire e h) c = ground (arith, e, c)
Advance-counted (sent e) c = ground (arith, e, c)
Advance-counted (failed e) c = ground (arith, e, c)
Advance-counted (wake e) c = ground (arith, e, c)
Advance-counted (resent true e) c = ground (arith, e, c)
Advance-counted (resent false e) c = ground (arith, e, c)

Advance-places :
    {taken : ℕ} {d d' : Delivery}
    → Advance taken d d'
    → (places (d' ∷ []) ≤ places (d ∷ [])) ⊎ (taken < max_concurrent_sends)
unfolding places holds_place
Advance-places (acquire e h) = inr h
Advance-places (sent e) = inl (ground (arith, e))
Advance-places (failed e) = inl (ground (arith, e))
Advance-places (wake e) = inl (ground (arith, e))
Advance-places (resent ok e) = inl (ground (arith, e))

-- A goroutine among others.
places-middle :
    (before after : List Delivery) (d : Delivery)
    → places (before ++ d ∷ after) ≡ places before + places after + places (d ∷ [])
unfolding places
places-middle before after d = omega (arith, places-append before (d ∷ after))

places-one : (d : Delivery) → places (d ∷ []) ≤ 1
unfolding places
places-one d = ground arith

every-middle :
    (before after : List Delivery) (d d' : Delivery)
    → every is_counted (before ++ d ∷ after) ≡ true
    → (is_counted d ≡ true → is_counted d' ≡ true)
    → every is_counted (before ++ d' ∷ after) ≡ true
every-middle before after d d' h k =
    ground (arith, every-append before (d ∷ after), every-append before (d' ∷ after), h, k)

Step-IsLimited : {ds es : List Delivery} → Step ds es → IsLimited ds → IsLimited es
Step-IsLimited {ds = ds} (dispatched ev is) (few, counted) = (
  omega (arith, places-append ds (map (started ev) is), started-places ev is, few),
  ground (arith, every-append ds (map (started ev) is), started-counted ev is, counted),
)
Step-IsLimited {ds = ds} (advance before after d d' e a) (few, counted) = (
  elim (Advance-places a) [
    | inl less ↦
        omega (
          arith,
          places-middle before after d,
          places-middle before after d',
          ap places e,
          few,
          less,
        )
    | inr room ↦ omega (
      arith,
      places-middle before after d,
      places-middle before after d',
      ap places e,
      room,
      places-one d',
    )
  ],
  every-middle before after d d' (sym (ap (every is_counted) e) ∙ counted) (Advance-counted a),
)

Reach-IsLimited : {ds : List Delivery} → Reach [] ds → IsLimited ds
unfolding places
Reach-IsLimited here = (omega arith, refl)
Reach-IsLimited (next r s) = Step-IsLimited s (Reach-IsLimited r)

-- Whatever events are dispatched and however their goroutines interleave, at most four calls of
-- `Send` run at a time; and each goroutine sends at most twice, and gives up only after the second.
pub deliveries-IsBounded : {ds : List Delivery} → Reach [] ds → IsBounded ds
deliveries-IsBounded {ds = ds} r =
    let (few, counted) = Reach-IsLimited r in (omega (arith, in_send-places ds, few), counted)
