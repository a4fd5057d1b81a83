-- ===== src/Scheduler/Retry/Waits.antt =====
-- How long `RunWithRetry` waits before each retry.
use technician.Common.{
  nat_beq, ℕ, zero, suc, ◌+◌, ◌*◌, ◌^◌, ◌<◌, ◌≡◌, refl, sym, ap, ◌∙◌, inl, inr, Bool, false, some,
  List, [], ◌∷◌, arith, if◌then◌else◌, Bool-cases, if-elim, length, get_elem?, ◌==◌, nat_eq,
  str_beq_iff, str_eq, ==-true,
}
use technician.Common.Duration.{add64, add64-pos}
use technician.Common.Int.{ℤ, pos, pos_part, leb_ℤ}
use technician.Common.Text.{codes}
use native.Mathlib.Nat.{pow-suc, one-le-pow}
use technician.Check.{Result}
use technician.Config.Types.{RetryPolicy}
use technician.Scheduler.Retry.{
  next_delay, first_delay, retried, retry_loop, run_with_retry, with_policy,
}

-- The delay after `n` steps of the backoff.
abbrev pub delay_after : RetryPolicy → ℕ → ℤ → ℤ
delay_after p zero d = d
delay_after p (suc n) d = delay_after p n (next_delay p d)

module _ {F : Type 0} (probe : ℕ → Result F) (cancelled : ℕ → Bool) where
  -- Wait `i` of those that are made is the delay after `i` steps of the backoff from `d`.
  abbrev pub WaitsFrom : RetryPolicy → ℤ → Result F × List ℤ → Type 0
  WaitsFrom p d out = (i : ℕ) → i < length out.1 → get_elem? out.1 i ≡ some (delay_after p i d)

  one_wait : (p : RetryPolicy) (d : ℤ) (r : Result F) → WaitsFrom p d (r, d ∷ [])
  one_wait p d r zero h = refl
  one_wait p d r (suc i) h = absurd (omega arith)

  more_waits :
      (p : RetryPolicy) (d : ℤ) (out : Result F × List ℤ)
      → WaitsFrom p (next_delay p d) out
      → WaitsFrom p d (out.0, d ∷ out.1)
  more_waits p d out w zero h = refl
  more_waits p d out w (suc i) h = w i (omega arith)

  retry_loop-waits :
      (p : RetryPolicy) (left attempt : ℕ) (d : ℤ) (r : Result F)
      → WaitsFrom p d (retry_loop probe cancelled p left attempt d r)
  unfolding retry_loop
  retry_loop-waits p zero attempt d r = λ i h. absurd (omega arith)
  retry_loop-waits p (suc left) attempt d r =
      if-elim (WaitsFrom p d) (cancelled attempt) (λ c i h. absurd (omega arith))
        λ c.
          if-elim (WaitsFrom p d) (probe attempt).success
            (λ s. one_wait p d (retried probe cancelled attempt))
            (λ s.
              more_waits p d
                (retry_loop probe cancelled p left (suc attempt) (next_delay p d)
                  (retried probe cancelled attempt))
                (retry_loop-waits p left (suc attempt) (next_delay p d)
                  (retried probe cancelled attempt)))

  run_with_retry-waits :
      (p : RetryPolicy)
      → WaitsFrom p (pos (first_delay p)) (run_with_retry probe cancelled (some p))
  unfolding run_with_retry with_policy
  run_with_retry-waits p =
      if-elim (WaitsFrom p (pos (first_delay p))) (probe 0).success (λ s i h. absurd (omega arith))
        λ s.
          if-elim (WaitsFrom p (pos (first_delay p))) (leb_ℤ p.count (pos 0))
            (λ c i h. absurd (omega arith))
            (λ c. retry_loop-waits p (pos_part p.count) 1 (pos (first_delay p)) (probe 0))

exponential_step :
    (p : RetryPolicy) (d : ℕ)
    → p.backoff ≡ codes "exponential"
    → d + d < 2 ^ 63
    → next_delay p (pos d) ≡ pos (d + d)
unfolding next_delay
exponential_step p d e h =
    let sum : add64 (pos d) (pos d) ≡ pos (d + d) = add64-pos d d h in
    ground (arith, str_beq_iff p.backoff (codes "exponential"), sum)

linear_step :
    (p : RetryPolicy) (d : ℕ)
    → p.backoff ≡ codes "linear"
    → d + p.delay < 2 ^ 63
    → next_delay p (pos d) ≡ pos (d + p.delay)
unfolding next_delay
linear_step p d e h =
    let sum : add64 (pos d) (pos p.delay) ≡ pos (d + p.delay) = add64-pos d p.delay h in
    ground (
      arith,
      str_beq_iff p.backoff (codes "exponential"),
      str_beq_iff p.backoff (codes "linear"),
      sum,
    )

double_pow : (d n : ℕ) → d * 2 ^ suc n ≡ (d + d) * 2 ^ n
double_pow d n = rw (pow-suc 2 n) (grind arith)

double_fits : (d n : ℕ) → (d + d) * 2 ^ n < 2 ^ 63 → d + d < 2 ^ 63
double_fits d n h = grind (arith, one-le-pow n 2 (omega arith))

exponential_delay :
    (p : RetryPolicy) (n d : ℕ)
    → p.backoff ≡ codes "exponential"
    → d * 2 ^ n < 2 ^ 63
    → delay_after p n (pos d) ≡ pos (d * 2 ^ n)
exponential_delay p zero d e h = ap pos (omega arith)
exponential_delay p (suc n) d e h =
    let fits : (d + d) * 2 ^ n < 2 ^ 63 = rw (double_pow d n) at h in
    rw (exponential_step p d e (double_fits d n fits))
      (exponential_delay p n (d + d) e fits ∙ ap pos (sym (double_pow d n)))

linear_delay :
    (p : RetryPolicy) (n d : ℕ)
    → p.backoff ≡ codes "linear"
    → d + n * p.delay < 2 ^ 63
    → delay_after p n (pos d) ≡ pos (d + n * p.delay)
linear_delay p zero d e h = ap pos (omega arith)
linear_delay p (suc n) d e h =
    rw (linear_step p d e (grind arith))
      (linear_delay p n (d + p.delay) e (grind arith) ∙ ap pos (grind arith))

constant_step :
    (p : RetryPolicy) (d : ℤ)
    → (p.backoff == codes "exponential") ≡ false
    → (p.backoff == codes "linear") ≡ false
    → next_delay p d ≡ d
unfolding next_delay
constant_step p d e l = ground arith

constant_delay :
    (p : RetryPolicy) (n : ℕ) (d : ℤ)
    → (p.backoff == codes "exponential") ≡ false
    → (p.backoff == codes "linear") ≡ false
    → delay_after p n d ≡ d
constant_delay p zero d e l = refl
constant_delay p (suc n) d e l = rw (constant_step p d e l) (constant_delay p n d e l)

-- The first wait: the configured delay, or one second where it is 0.
abbrev pub first_wait : ℕ → ℕ
first_wait zero = 1000000000
first_wait (suc n) = suc n

first_delay-first_wait : (p : RetryPolicy) → first_delay p ≡ first_wait p.delay
unfolding first_delay
first_delay-first_wait p = by_delay p.delay
  where
    by_delay : (n : ℕ) → (if nat_beq n 0 then 1000000000 else n) ≡ first_wait n
    by_delay zero = refl
    by_delay (suc n) = ground arith

-- The wait before retry `i + 1`, of the first one and the configured delay: the first one doubled `i`
-- times, or with `i` of the delays added, or itself.
abbrev pub backoff_from : RetryPolicy → ℕ → ℕ → ℕ
backoff_from p d i =
    if p.backoff == codes "exponential"
    then d * 2 ^ i
    else if p.backoff == codes "linear"
    then d + i * p.delay
    else d

abbrev pub backoff_wait : RetryPolicy → ℕ → ℕ
backoff_wait p i = backoff_from p (first_wait p.delay) i

delay_after-backoff_from :
    (p : RetryPolicy) (d i : ℕ)
    → backoff_from p d i < 2 ^ 63
    → delay_after p i (pos d) ≡ pos (backoff_from p d i)
delay_after-backoff_from p d i = elim (Bool-cases (p.backoff == codes "exponential")) [
  | inl e ↦ simp e (exponential_delay p i d (==-true e))
  | inr e ↦ elim (Bool-cases (p.backoff == codes "linear")) [
    | inl l ↦ simp (e, l) (linear_delay p i d (==-true l))
    | inr l ↦ simp (e, l) (λ h. constant_delay p i (pos d) e l)
  ]
]

-- Every wait that `RunWithRetry` makes is that of its backoff, while this is below 2 ^ 63
-- nanoseconds. With a
-- linear backoff and no configured delay this is the default delay each time.
pub run_with_retry-wait :
    {F : Type 0} (probe : ℕ → Result F) (cancelled : ℕ → Bool) (p : RetryPolicy) (i : ℕ)
    → i < length (run_with_retry probe cancelled (some p)).1
    → backoff_wait p i < 2 ^ 63
    → get_elem? (run_with_retry probe cancelled (some p)).1 i ≡ some (pos (backoff_wait p i))
run_with_retry-wait probe cancelled p i made fits =
    run_with_retry-waits probe cancelled p i made
    ∙ ap (λ d. some (delay_after p i (pos d))) (first_delay-first_wait p)
    ∙ ap some (delay_after-backoff_from p (first_wait p.delay) i fits)
