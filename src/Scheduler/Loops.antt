-- ===== src/Scheduler/Loops.antt =====
-- internal/scheduler/scheduler.go: the registry, `Start`, and the goroutines that it starts: a loop and
-- a first run for each check, and the one that closes the channel. `Start` is one step, since the
-- closing waits for a context that ends later. gronx is a parameter.
pub mod Closing
pub mod Shutdown
use technician.Common.{
  ℕ, ◌≡◌, Bool, true, false, not, ◌||◌, Option, none, some, List, [], ◌∷◌, ◌++◌, ltb, if◌then◌else◌,
  every, nat_eq, Str, str_eq,
}
use technician.Common.Maps.{Map, insert, lookup}
use technician.Check.{Result}
use technician.Config.Kind.{CheckType, text}
use technician.Config.Types.{CheckConfig}
use technician.Config.Convert.{Platform}
use technician.Config.Origin.{Origin}
use technician.Scheduler.Stagger.{compute_stagger}
use technician.Scheduler.Execute.{execute, receive}

-- `ProberRegistry`: the checkers by the text of their type
abbrev pub Registry : Type 0 → Type 0
Registry C = Map Str C

module _ {C : Type 0} where
  -- `Register`
  unfoldable pub register : CheckType → C → Registry C → Registry C
  register typ c r = insert (text typ) c r

  -- `RegisterMap`
  unfoldable pub register_map : List (CheckType × C) → Registry C → Registry C
  unfolding register
  register_map [] r = r
  register_map ((typ, c) ∷ rest) r = register_map rest (register typ c r)

  -- `Get`, with `none` for nil
  unfoldable pub get : Registry C → CheckType → Option C
  get r typ = lookup (text typ) r

-- Where a goroutine stands: in `runLoop` it waits for the tick, waits for its stagger, or runs the
-- check; that of `runInitial` waits for its delay or runs; and both end.
pub data Phase : Type 0 where
  ticking staggering running delayed running_once finished : Phase

-- A goroutine that the WaitGroup counts, until it is finished.
pub record Task : Type 0 where
  pub check : CheckConfig
  pub stagger : ℕ
  pub phase : Phase

-- The scheduler as it runs: whether the context is cancelled, whether the channel is closed, and
-- whether a send on the closed channel has panicked.
pub record Running (F : Type 0) : Type 0 where
  pub tasks : List Task
  pub cancelled : Bool
  pub closed : Bool
  pub panicked : Bool
  pub results : List (Result F)

-- what comes after the tick, or at the start of a first run
abbrev pub after_tick : ℕ → Phase
after_tick stagger = if ltb 0 stagger then staggering else running

abbrev pub first_phase : ℕ → Phase
first_phase delay = if ltb 0 delay then delayed else running_once

module _ {C : Type 0} (registry : Registry C) (origin : Option Origin) where
  -- the loop of `Start`, where `is_valid` is `gronx.IsValid`
  unfoldable pub loops : (Str → Bool) → List CheckConfig → List Task
  unfolding get
  loops is_valid [] = []
  loops is_valid (pc ∷ pcs) =
      let rest = loops is_valid pcs in
      elim (get registry pc.typ) [
        | none ↦ rest
        | some c ↦
            if not (is_valid pc.schedule)
            then rest
            else (record { check = pc; stagger = compute_stagger pc.name origin; phase = ticking })
              ∷ rest
      ]

  -- `runInitial`
  unfoldable pub run_initial : List CheckConfig → List Task
  unfolding get
  run_initial [] = []
  run_initial (pc ∷ pcs) =
      let rest = run_initial pcs in
      elim (get registry pc.typ) [
        | none ↦ rest
        | some c ↦
            (record {
              check = pc;
              stagger = compute_stagger pc.name origin;
              phase = first_phase (compute_stagger pc.name origin);
            })
            ∷ rest
      ]

  -- `Start`
  unfoldable pub start : {F : Type 0} → (Str → Bool) → List CheckConfig → Running F
  unfolding loops run_initial
  start is_valid checks = record {
    tasks = loops is_valid checks ++ run_initial checks;
    cancelled = false;
    closed = false;
    panicked = false;
    results = [];
  }

-- What a goroutine does between its runs, once the context is cancelled or before.
pub data Move (cancelled : Bool) (t : Task) : Phase → Type 0 where
  no_next_tick : t.phase ≡ ticking → Move cancelled t finished
  stopped : cancelled ≡ true → t.phase ≡ ticking → Move cancelled t finished
  ticked : t.phase ≡ ticking → Move cancelled t (after_tick t.stagger)
  stagger_stopped : cancelled ≡ true → t.phase ≡ staggering → Move cancelled t finished
  staggered : t.phase ≡ staggering → Move cancelled t running
  delay_stopped : cancelled ≡ true → t.phase ≡ delayed → Move cancelled t finished
  delay_over : t.phase ≡ delayed → Move cancelled t running_once

-- The end of a run, with the phase after it.
pub data RunEnd (t : Task) : Phase → Type 0 where
  loop_again : t.phase ≡ running → RunEnd t ticking
  first_over : t.phase ≡ running_once → RunEnd t finished

abbrev pub is_finished : Task → Bool
is_finished t = elim t.phase [
  | ticking ↦ false
  | staggering ↦ false
  | running ↦ false
  | delayed ↦ false
  | running_once ↦ false
  | finished ↦ true
]

-- A step of the program: the context is cancelled, a goroutine moves, one ends a run and publishes its
-- result, the closing one closes the channel when no goroutine is left, or the worker takes a result.
pub data Step {F : Type 0} (p : Platform) (s : Running F) : Running F → Type 0 where
  cancel : Step p s (record s { cancelled = true })
  move :
      (before after : List Task) (t : Task) (n : Phase)
      → s.tasks ≡ before ++ t ∷ after
      → Move s.cancelled t n
      → Step p s (record s { tasks = before ++ record t { phase = n } ∷ after })
  end_run :
      (before after : List Task) (t : Task) (n : Phase) (probe : ℕ → Result F) (stop : ℕ → Bool)
      → s.tasks ≡ before ++ t ∷ after
      → RunEnd t n
      → Step p s (record s {
        tasks = before ++ record t { phase = n } ∷ after;
        panicked = s.panicked || s.closed;
        results = execute p probe stop t.check s.results;
      })
  close :
      s.cancelled ≡ true
      → every is_finished s.tasks ≡ true
      → s.closed ≡ false
      → Step p s (record s { closed = true })
  take_result : Step p s (record s { results = receive s.results })

pub data Reach {F : Type 0} (p : Platform) (s : Running F) : Running F → Type 0 where
  here : Reach p s s
  next : {t u : Running F} → Reach p s t → Step p t u → Reach p s u
