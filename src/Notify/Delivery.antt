-- ===== src/Notify/Delivery.antt =====
-- internal/notify/notify.go: the goroutines that `dispatch` starts, each of which takes a place in
-- `sem`, sends, and sends a second time two seconds after an error. What a send answers is open.
pub mod Bounded
use technician.Common.{
  ℕ, ◌+◌, ◌<◌, ◌≡◌, Bool, true, false, List, [], ◌∷◌, ◌++◌, map, if◌then◌else◌, nat_eq, str_eq,
}
use technician.Notify.Manager.{Event}

-- `maxConcurrentSends`
abbrev pub max_concurrent_sends : ℕ
max_concurrent_sends = 4

-- Where a goroutine stands: before `sem`, in the first `Send`, in the sleep, in the second `Send`, and
-- at its end, with whether a send has succeeded.
pub data Stage : Type 0 where
  waiting sending sleeping resending : Stage
  over : Bool → Stage

-- A goroutine for a webhook and an event, with the number of its calls of `Send`.
pub record Delivery : Type 0 where
  pub webhook : ℕ
  pub event : Event
  pub stage : Stage
  pub sends : ℕ

-- a goroutine as `dispatch` starts it
abbrev pub started : Event → ℕ → Delivery
started ev i = record { webhook = i; event = ev; stage = waiting; sends = 0 }

-- whether it has a place in `sem`
unfoldable pub holds_place : Delivery → Bool
holds_place d = elim d.stage [
  | waiting ↦ false
  | sending ↦ true
  | sleeping ↦ true
  | resending ↦ true
  | over b ↦ false
]

-- the places that are taken
unfoldable pub places : List Delivery → ℕ
unfolding holds_place
places [] = 0
places (d ∷ ds) = places ds + (if holds_place d then 1 else 0)

-- What one goroutine does next, where so many places are taken: it acquires one if there is one, its
-- first send ends well or not, it wakes up, and its second send ends well or not.
pub data Advance (taken : ℕ) (d : Delivery) : Delivery → Type 0 where
  acquire :
      d.stage ≡ waiting
      → taken < max_concurrent_sends
      → Advance taken d (record d { stage = sending; sends = d.sends + 1 })
  sent : d.stage ≡ sending → Advance taken d (record d { stage = over true })
  failed : d.stage ≡ sending → Advance taken d (record d { stage = sleeping })
  wake : d.stage ≡ sleeping → Advance taken d (record d { stage = resending; sends = d.sends + 1 })
  resent : (ok : Bool) → d.stage ≡ resending → Advance taken d (record d { stage = over ok })

-- A step of the goroutines: `dispatch` starts some, for the webhooks that it gives, or one goes on.
pub data Step (ds : List Delivery) : List Delivery → Type 0 where
  dispatched : (ev : Event) (is : List ℕ) → Step ds (ds ++ map (started ev) is)
  advance :
      (before after : List Delivery) (d d' : Delivery)
      → ds ≡ before ++ d ∷ after
      → Advance (places ds) d d'
      → Step ds (before ++ d' ∷ after)

pub data Reach (ds : List Delivery) : List Delivery → Type 0 where
  here : Reach ds ds
  next : {es fs : List Delivery} → Reach ds es → Step es fs → Reach ds fs
