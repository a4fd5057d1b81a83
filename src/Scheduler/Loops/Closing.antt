-- ===== src/Scheduler/Loops/Closing.antt =====
-- The channel is closed after every goroutine has ended, so that no result is sent on a closed one.
use technician.Common.{
  ◌≡◌, refl, ap, ◌⊎◌, inl, inr, Bool, true, false, Option, List, [], ◌∷◌, ◌++◌, arith, every,
  nat_eq, Str, str_eq,
}
use technician.Config.Types.{CheckConfig}
use technician.Config.Convert.{Platform}
use technician.Config.Origin.{Origin}
use technician.Scheduler.Loops.{
  Registry, start, Running, Task, Phase, Move, no_next_tick, stopped, ticked, stagger_stopped,
  staggered, delay_stopped, delay_over, RunEnd, loop_again, first_over, is_finished, Step, cancel,
  move, end_run, close, take_result, Reach, here, next,
}

Move-unfinished :
    {cancelled : Bool} {t : Task} {n : Phase} → Move cancelled t n → is_finished t ≡ false
Move-unfinished (no_next_tick e) = rw e refl
Move-unfinished (stopped c e) = rw e refl
Move-unfinished (ticked e) = rw e refl
Move-unfinished (stagger_stopped c e) = rw e refl
Move-unfinished (staggered e) = rw e refl
Move-unfinished (delay_stopped c e) = rw e refl
Move-unfinished (delay_over e) = rw e refl

RunEnd-unfinished : {t : Task} {n : Phase} → RunEnd t n → is_finished t ≡ false
RunEnd-unfinished (loop_again e) = rw e refl
RunEnd-unfinished (first_over e) = rw e refl

-- A list with a goroutine that has not ended is not one of those that have.
unfinished-every :
    (before after : List Task) (t : Task)
    → is_finished t ≡ false
    → every is_finished (before ++ t ∷ after) ≡ false
unfinished-every [] after t h = rw h refl
unfinished-every (b ∷ before) after t h = ground (arith, unfinished-every before after t h)

module _ {F : Type 0} (p : Platform) where
  -- The channel is open, or no goroutine is left and the context is cancelled.
  pub IsOrderly : Running F → Type 0
  IsOrderly s =
      (s.panicked ≡ false)
      × ((s.closed ≡ false) ⊎ ((every is_finished s.tasks ≡ true) × (s.cancelled ≡ true)))

  -- The channel is open while a goroutine has not ended.
  IsOrderly-unclosed :
      (s : Running F) (before after : List Task) (t : Task)
      → IsOrderly s
      → s.tasks ≡ before ++ t ∷ after
      → is_finished t ≡ false
      → (s.panicked ≡ false) × (s.closed ≡ false)
  unfolding IsOrderly
  IsOrderly-unclosed s before after t (calm, inl unclosed) e h = (calm, unclosed)
  IsOrderly-unclosed s before after t (calm, inr (done, c)) e h =
      absurd (ground (arith, ap (every is_finished) e, unfinished-every before after t h))

  Step-IsOrderly : {s s' : Running F} → Step p s s' → IsOrderly s → IsOrderly s'
  unfolding IsOrderly
  Step-IsOrderly cancel (calm, inl unclosed) = (calm, inl unclosed)
  Step-IsOrderly cancel (calm, inr (done, c)) = (calm, inr (done, refl))
  Step-IsOrderly {s = s} (move before after t n e m) o =
      let (calm, unclosed) = IsOrderly-unclosed s before after t o e (Move-unfinished m) in
      (calm, inl unclosed)
  Step-IsOrderly {s = s} (end_run before after t n probe stop e m) o =
      let (calm, unclosed) = IsOrderly-unclosed s before after t o e (RunEnd-unfinished m) in
      (rw (calm, unclosed) refl, inl unclosed)
  Step-IsOrderly (close c done unclosed) (calm, _) = (calm, inr (done, c))
  Step-IsOrderly take_result o = o

  Reach-IsOrderly : {s s' : Running F} → IsOrderly s → Reach p s s' → IsOrderly s'
  Reach-IsOrderly o here = o
  Reach-IsOrderly o (next r st) = Step-IsOrderly st (Reach-IsOrderly o r)

-- However the goroutines of a started scheduler interleave with its shutdown and with the worker, no
-- result is sent on a closed channel; and the channel is closed only when the context is cancelled and
-- every loop and every first run has ended.
pub start-IsOrderly :
    {C F : Type 0} (p : Platform) (registry : Registry C) (origin : Option Origin)
    (is_valid : Str → Bool) (checks : List CheckConfig) (s : Running F)
    → Reach p (start registry origin is_valid checks) s
    → IsOrderly p s
unfolding IsOrderly start
start-IsOrderly p registry origin is_valid checks s r = Reach-IsOrderly p (refl, inl refl) r
