-- ===== src/Notify/Cooldown.antt =====
-- `dispatch` over many events: how far apart the sends of one webhook are.
use technician.Common.{
  ℕ, ◌+◌, ◌≤◌, ◌<◌, ◌≡◌, refl, subst, ◌∙◌, inl, inr, true, false, none, some, List, [], ◌∷◌, arith,
  get_elem?, nat_eq, Str, str_eq,
}
use technician.Common.Maps.{lookup}
use technician.Notify.Manager.{Event, Webhook, Manager, cooldown_key, sends, dispatch}
use technician.Notify.Sends.{
  elem, sends_at, dispatch_from-elem, sends_at-get_elem?, dispatch_from-last_sent,
  dispatch_from-changes,
}

-- A webhook sends an event exactly when its filters let the event through and its cooldown for this
-- check and type of event is over, whatever the webhooks before it did in the same call.
pub dispatch-elem :
    (now : ℕ) (ev : Event) (m : Manager) (n : ℕ)
    → elem n (dispatch now ev m).1
      ≡ elim (get_elem? m.webhooks n) [ none ↦ false | some w ↦ sends n w now ev m.last_sent ]
unfolding dispatch
dispatch-elem now ev m n =
    dispatch_from-elem now ev 0 n m.webhooks m.last_sent
    ∙ subst
        (λ j.
          sends_at now ev 0 m.webhooks j m.last_sent
          ≡ elim (get_elem? m.webhooks n) [ none ↦ false | some w ↦ sends j w now ev m.last_sent ])
        {x = 0 + n} {y = n} (omega arith) (sends_at-get_elem? now ev 0 n m.webhooks m.last_sent)

-- The last send of this webhook, check and type was not before `t`.
SentSince : ℕ → Str → Manager → Type 0
SentSince t k m = (last : ℕ) × (lookup k m.last_sent ≡ some last) × (t ≤ last)

pub dispatch_all : Manager → List (ℕ × Event) → Manager
dispatch_all m [] = m
dispatch_all m ((now, ev) ∷ log) = dispatch_all (dispatch now ev m).0 log

-- No event of the log is before `t`.
abbrev pub NotBefore : ℕ → List (ℕ × Event) → Type 0
NotBefore t [] = Unit {0}
NotBefore t ((now, ev) ∷ log) = (t ≤ now) × NotBefore t log

dispatch-SentSince :
    (t now : ℕ) (ev : Event) (k : Str) (m : Manager)
    → t ≤ now
    → SentSince t k m
    → SentSince t k (dispatch now ev m).0
unfolding dispatch SentSince
dispatch-SentSince t now ev k m h (last, e, l) =
    elim (dispatch_from-changes now ev 0 m.webhooks m.last_sent k) [
      | inl same ↦ (last, same ∙ e, l)
      | inr new ↦ (now, new, h)
    ]

dispatch_all-SentSince :
    (t : ℕ) (k : Str) (m : Manager) (log : List (ℕ × Event))
    → NotBefore t log
    → SentSince t k m
    → SentSince t k (dispatch_all m log)
unfolding dispatch_all
dispatch_all-SentSince t k m [] h s = s
dispatch_all-SentSince t k m ((now, ev) ∷ log) h s =
    dispatch_all-SentSince t k (dispatch now ev m).0 log h.1 (dispatch-SentSince t now ev k m h.0 s)

dispatch_all-webhooks :
    (m : Manager) (log : List (ℕ × Event)) → (dispatch_all m log).webhooks ≡ m.webhooks
unfolding dispatch_all dispatch
dispatch_all-webhooks m [] = refl
dispatch_all-webhooks m ((now, ev) ∷ log) = dispatch_all-webhooks (dispatch now ev m).0 log

dispatch-sent :
    (now : ℕ) (ev : Event) (m : Manager) (n : ℕ)
    → elem n (dispatch now ev m).1 ≡ true
    → SentSince now (cooldown_key n ev.check ev.typ) (dispatch now ev m).0
unfolding dispatch SentSince
dispatch-sent now ev m n h =
    (now, dispatch_from-last_sent now ev 0 n m.webhooks m.last_sent ∙ rw h, omega arith)

sends-cooling :
    (n : ℕ) (w : Webhook) (t now : ℕ) (ev : Event) (m : Manager)
    → SentSince t (cooldown_key n ev.check ev.typ) m
    → now < t + w.cooldown
    → sends n w now ev m.last_sent ≡ false
unfolding sends SentSince
sends-cooling n w t now ev m (last, e, l) h = ground arith

-- After a webhook has sent an event it sends no event of the same type for the same check until
-- its cooldown is over, whatever is dispatched in between, if the clock does not run back.
pub dispatch-spacing :
    (m : Manager) (n : ℕ) (w : Webhook) (t now : ℕ) (first second : Event) (log : List (ℕ × Event))
    → get_elem? m.webhooks n ≡ some w
    → elem n (dispatch t first m).1 ≡ true
    → first.check ≡ second.check
    → first.typ ≡ second.typ
    → NotBefore t log
    → now < t + w.cooldown
    → elem n (dispatch now second (dispatch_all (dispatch t first m).0 log)).1 ≡ false
unfolding dispatch_all
dispatch-spacing m n w t now first second log hw sent hc ht hl h =
    let m' = dispatch_all (dispatch t first m).0 log in
    let since =
      dispatch_all-SentSince t (cooldown_key n first.check first.typ) (dispatch t first m).0 log hl
        (dispatch-sent t first m n sent) in
    let since' : SentSince t (cooldown_key n second.check second.typ) m' =
      subst (λ k. SentSince t k m') (cc) since in
    let same : m'.webhooks ≡ m.webhooks =
      dispatch_all-webhooks (dispatch t first m).0 log
      ∙ dispatch_all-webhooks m ((t, first) ∷ []) in
    dispatch-elem now second m' n ∙ rw (same, hw) (sends-cooling n w t now second m' since' h)
