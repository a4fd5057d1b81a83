-- ===== src/Scheduler/Retry.antt =====
-- internal/scheduler/scheduler.go: `RunWithRetry`.
pub mod Attempts
pub mod Waits
use technician.Common.{
  ℕ, zero, suc, Bool, Option, none, some, List, [], ◌∷◌, nat_beq, if◌then◌else◌, ◌==◌, nat_eq,
  str_eq,
}
use technician.Common.Duration.{add64}
use technician.Common.Int.{ℤ, pos, pos_part, leb_ℤ}
use technician.Common.Text.{codes}
use technician.Config.Types.{RetryPolicy}
use technician.Check.{Result}

-- the `switch` on the backoff, of an int64
unfoldable pub next_delay : RetryPolicy → ℤ → ℤ
next_delay p delay =
    if p.backoff == codes "exponential"
    then add64 delay delay
    else if p.backoff == codes "linear"
    then add64 delay (pos p.delay)
    else delay

abbrev pub one_second : ℕ
one_second = 1000000000

-- `cfg.Retry.Delay`, with its default
unfoldable pub first_delay : RetryPolicy → ℕ
first_delay p = if nat_beq p.delay 0 then one_second else p.delay

-- `probe k` is what the `k`-th call of `checker.Run` returns, from 0, and `cancelled k` tells whether
-- the context is done before the wait for retry `k` is over.
module _ {F : Type 0} (probe : ℕ → Result F) (cancelled : ℕ → Bool) where
  -- the result of a retry
  abbrev pub retried : ℕ → Result F
  retried attempt = record (probe attempt) { retries = attempt }

  -- the `for` loop, with the rounds that are left: the result, and the durations of the
  -- waits that ended, where one that is negative is over at once
  unfoldable pub retry_loop : RetryPolicy → ℕ → ℕ → ℤ → Result F → Result F × List ℤ
  unfolding next_delay
  retry_loop p zero attempt delay result = (result, [])
  retry_loop p (suc left) attempt delay result =
      let rest = retry_loop p left (suc attempt) (next_delay p delay) (retried attempt) in
      if cancelled attempt
      then (result, [])
      else if (probe attempt).success
      then (retried attempt, delay ∷ [])
      else (rest.0, delay ∷ rest.1)

  with_policy : Option RetryPolicy → Result F → Result F × List ℤ
  unfolding retry_loop first_delay
  with_policy none result = (result, [])
  with_policy (some p) result =
      if leb_ℤ p.count (pos 0)
      then (result, [])
      else retry_loop p (pos_part p.count) 1 (pos (first_delay p)) result

  -- `RunWithRetry`
  unfoldable pub run_with_retry : Option RetryPolicy → Result F × List ℤ
  unfolding with_policy
  run_with_retry retry = if (probe 0).success then (probe 0, []) else with_policy retry (probe 0)
