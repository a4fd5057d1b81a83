-- ===== src/Scheduler/Loops/Shutdown.antt =====
-- After the context is cancelled the program can always go on to close the channel, without a timer.
use technician.Common.{
  ◌≡◌, refl, sym, ap, subst, ◌∙◌, inl, inr, Bool, true, false, List, [], ◌∷◌, ◌++◌, append_assoc,
  Bool-cases, every, nat_eq, str_eq,
}
use technician.Check.{Result}
use technician.Config.Convert.{Platform}
use technician.Scheduler.Loops.{
  Running, Task, Phase, ticking, staggering, running, delayed, running_once, finished, stopped,
  stagger_stopped, delay_stopped, loop_again, first_over, is_finished, move, end_run, close, Step,
  cancel, take_result, Move, no_next_tick, ticked, staggered, delay_over,
}

-- Whether a goroutine moves because the context is done, and not since a timer has fired or the
-- schedule has no further tick.
abbrev pub is_told : {c : Bool} {t : Task} {n : Phase} → Move c t n → Bool
is_told (no_next_tick h) = false
is_told (stopped c h) = true
is_told (ticked h) = false
is_told (stagger_stopped c h) = true
is_told (staggered h) = false
is_told (delay_stopped c h) = true
is_told (delay_over h) = false

-- The steps that wait for no timer and for no receiver: such a move, the end of a run, and the closing.
abbrev pub is_prompt : {F : Type 0} {p : Platform} {s t : Running F} → Step p s t → Bool
is_prompt cancel = false
is_prompt (move before after t n e m) = is_told m
is_prompt (end_run before after t n probe stop e r) = true
is_prompt (close c e k) = true
is_prompt take_result = false

-- Such steps, one after another.
pub data Winds {F : Type 0} (p : Platform) (s : Running F) : Running F → Type 0 where
  here : Winds p s s
  next : {t u : Running F} → Winds p s t → (st : Step p t u) → is_prompt st ≡ true → Winds p s u

module _ {F : Type 0} (p : Platform) (some_result : Result F) where
  Winds-trans : {s t u : Running F} → Winds p s t → Winds p t u → Winds p s u
  Winds-trans r here = r
  Winds-trans r (next q st h) = next (Winds-trans r q) st h

  -- The program can go on, with the context still cancelled and the channel as it is, to given goroutines.
  GoesTo : Running F → List Task → Type 0
  GoesTo s ts =
      (s' : Running F) × Winds p s s'
      × (s'.tasks ≡ ts)
      × (s'.cancelled ≡ true)
      × (s'.closed ≡ s.closed)

  GoesTo-trans :
      (s : Running F) (ts us : List Task)
      → ((s' : Running F) → s'.tasks ≡ ts → s'.cancelled ≡ true → GoesTo s' us)
      → GoesTo s ts
      → GoesTo s us
  unfolding GoesTo
  GoesTo-trans s ts us more (s', r, e, c, k) =
      let (s'', r', e', c', k') = more s' e c in (s'', Winds-trans r r', e', c', k' ∙ k)

  -- the goroutine at a place, ended
  ended : List Task → Task → List Task → List Task
  ended before t after = before ++ record t { phase = finished } ∷ after

  from_ticking :
      (s : Running F) (before after : List Task) (t : Task)
      → s.cancelled ≡ true
      → s.tasks ≡ before ++ t ∷ after
      → t.phase ≡ ticking
      → GoesTo s (ended before t after)
  unfolding GoesTo ended
  from_ticking s before after t c e h =
      (_, next here (move before after t finished e (stopped c h)) refl, refl, c, refl)

  finish_one :
      (s : Running F) (before after : List Task) (t : Task) (ph : Phase)
      → s.cancelled ≡ true
      → s.tasks ≡ before ++ t ∷ after
      → t.phase ≡ ph
      → GoesTo s (ended before t after)
  unfolding GoesTo ended
  finish_one s before after t ticking c e h = from_ticking s before after t c e h
  finish_one s before after t staggering c e h =
      (_, next here (move before after t finished e (stagger_stopped c h)) refl, refl, c, refl)
  finish_one s before after t delayed c e h =
      (_, next here (move before after t finished e (delay_stopped c h)) refl, refl, c, refl)
  finish_one s before after t running_once c e h = (
    _,
    next here (end_run before after t finished (λ n. some_result) (λ n. true) e (first_over h))
        refl,
    refl,
    c,
    refl,
  )
  finish_one s before after t running c e h =
      GoesTo-trans s (before ++ record t { phase = ticking } ∷ after) (ended before t after)
        (λ s' e' c'. from_ticking s' before after (record t { phase = ticking }) c' e' refl)
        (
          _,
          next here (end_run before after t ticking (λ n. some_result) (λ n. true) e (loop_again h))
              refl,
          refl,
          c,
          refl,
        )
  finish_one s before after t finished c e h =
      (s, here, e ∙ ap (λ ph. before ++ record t { phase = ph } ∷ after) h, c, refl)

  -- the goroutines, ended
  all_ended : List Task → List Task
  all_ended [] = []
  all_ended (t ∷ ts) = record t { phase = finished } ∷ all_ended ts

  finish_all :
      (before after : List Task) (s : Running F)
      → s.cancelled ≡ true
      → s.tasks ≡ before ++ after
      → GoesTo s (before ++ all_ended after)
  unfolding all_ended ended
  finish_all before [] s c e = unfold GoesTo in (s, here, e, c, refl)
  finish_all before (t ∷ after) s c e =
      let t' : Task = record t { phase = finished } in
      GoesTo-trans s (ended before t after) (before ++ all_ended (t ∷ after))
        (λ s' e' c'. subst (GoesTo s') (append_assoc before (t' ∷ []) (all_ended after)) (
          finish_all (before ++ t' ∷ []) after s' c'
            (e' ∙ sym (append_assoc before (t' ∷ []) after))))
        (finish_one s before after t t.phase c e refl)

  all_ended-finished : (ts : List Task) → every is_finished (all_ended ts) ≡ true
  unfolding all_ended
  all_ended-finished [] = refl
  all_ended-finished (t ∷ ts) = all_ended-finished ts

  close_ended :
      (s : Running F)
      → every is_finished s.tasks ≡ true
      → s.cancelled ≡ true
      → (s' : Running F) × Winds p s s' × (s'.closed ≡ true)
  close_ended s done c = elim (Bool-cases s.closed) [
    | inl shut ↦ (s, here, shut)
    | inr unclosed ↦ (_, next here (close c done unclosed) refl, refl)
  ]

-- Once the context is cancelled, the program can from every state go on to end all goroutines and to
-- close the channel by the ends of the runs, the goroutines' answers to the cancelled context and the
-- closing alone: no timer has to fire, no tick to come and no result to be received.
pub cancelled-closes :
    {F : Type 0} (p : Platform) (r : Result F) (s : Running F)
    → s.cancelled ≡ true
    → (s' : Running F) × Winds p s s' × (s'.closed ≡ true)
unfolding GoesTo
cancelled-closes p r s c =
    let (s', q, e, c', k) = finish_all p r [] s.tasks s c refl in
    let (s'', q', shut) =
      close_ended p r s' (ap (every is_finished) e ∙ all_ended-finished p r s.tasks) c' in
    (s'', Winds-trans p r q q', shut)
