-- ===== src/Scheduler/Execute.antt =====
-- internal/scheduler/scheduler.go: `execute`, and the channel that it publishes to. The metrics that it
-- records are in Metrics.
pub mod Channel
use technician.Common.{
  ℕ, Bool, true, ◌&&◌, List, [], ◌∷◌, ◌++◌, ltb, if◌then◌else◌, length, drop, nat_eq, str_eq,
}
use technician.Common.Int.{pos, ltb_ℤ}
use technician.Check.{Result, degraded_latency}
use technician.Config.Types.{CheckConfig}
use technician.Config.Convert.{Platform}
use technician.Config.Target.{target}
use technician.Scheduler.Retry.{run_with_retry}

-- `make(chan *check.Result, 100)`
abbrev pub capacity : ℕ
capacity = 100

module _ {F : Type 0} (p : Platform) where
  -- the result after the group, the target and the latency threshold
  unfoldable pub annotate : CheckConfig → Result F → Result F
  annotate cfg r =
      let r' = record r { group = cfg.group; target = target p cfg } in
      if ltb_ℤ (pos 0) cfg.degraded_after
        && r'.success
        && ltb_ℤ cfg.degraded_after (pos (degraded_latency r'))
      then record r' { degraded = true }
      else r'

module _ {F : Type 0} where
  -- the `select` on the send: a full channel drops the result
  unfoldable pub publish : List (Result F) → Result F → List (Result F)
  publish queue r = if ltb (length queue) capacity then queue ++ r ∷ [] else queue

  -- `for result := range sched.Results()` takes the oldest
  unfoldable pub receive : List (Result F) → List (Result F)
  receive queue = drop 1 queue

module _ {F : Type 0} (p : Platform) (probe : ℕ → Result F) (cancelled : ℕ → Bool) where
  -- `execute`, of the checker's answers and the context
  unfoldable pub execute : CheckConfig → List (Result F) → List (Result F)
  unfolding annotate publish
  execute cfg queue = publish queue (annotate p cfg (run_with_retry probe cancelled cfg.retry).0)
