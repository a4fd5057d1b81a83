-- ===== src/Scheduler/Retry/Attempts.antt =====
-- Which attempt `RunWithRetry` returns, and after how many waits.
use technician.Common.{
  ℕ, zero, suc, ◌+◌, ◌≤◌, ◌<◌, ◌≡◌, refl, sym, ap, ◌∙◌, subst, ◌⊎◌, inl, inr, Bool, true, false,
  Option, none, some, List, [], ◌∷◌, arith, nat_beq, nat_beq_iff, Bool-cases, if-elim, length,
  nat_eq, str_eq, ap, ltb, ltb→lt,
}
use technician.Common.Int.{ℤ, pos, pos_part, leb_ℤ}
use technician.Check.{Result}
use technician.Config.Types.{RetryPolicy}
use technician.Scheduler.Retry.{
  next_delay, first_delay, retried, retry_loop, run_with_retry, with_policy,
}

-- How often a policy lets a check be retried.
abbrev pub limit : Option RetryPolicy → ℕ
limit none = 0
limit (some p) = pos_part p.count

module _ {F : Type 0} (probe : ℕ → Result F) (cancelled : ℕ → Bool) where
  -- What attempt `k` gives: a retry is stamped with its number.
  abbrev pub attempt_result : ℕ → Result F
  attempt_result zero = probe zero
  attempt_result (suc k) = retried probe cancelled (suc k)

  -- From attempt `start` on, with at most `left` retries to come.
  pub record Ends (start left : ℕ) (out : Result F × List ℤ) : Type 0 where
    pub last : ℕ
    pub after_start : start ≤ last
    pub within : last ≤ start + left
    pub returned : out.0 ≡ attempt_result last
    pub waited : start + length out.1 ≡ last
    pub failed_before : (i : ℕ) → start ≤ i → i < last → (probe i).success ≡ false
    pub in_time : (i : ℕ) → start < i → i ≤ last → cancelled i ≡ false
    pub stopped :
        ((probe last).success ≡ true) ⊎ ((last ≡ start + left) ⊎ (cancelled (suc last) ≡ true))

  stay :
      (k left : ℕ)
      → ((probe k).success ≡ true) ⊎ ((k ≡ k + left) ⊎ (cancelled (suc k) ≡ true))
      → Ends k left (attempt_result k, [])
  stay k left h = record {
    last = k;
    after_start = omega arith;
    within = omega arith;
    returned = refl;
    waited = omega arith;
    failed_before = λ i a b. absurd (omega arith);
    in_time = λ i a b. absurd (omega arith);
    stopped = h;
  }

  advance_by_one :
      (k left : ℕ) (delay : ℤ) (out : Result F × List ℤ)
      → (probe k).success ≡ false
      → cancelled (suc k) ≡ false
      → Ends (suc k) left out
      → Ends k (suc left) (out.0, delay ∷ out.1)
  advance_by_one k left delay out f c e = record {
    last = e.last;
    after_start = omega (arith, e.after_start);
    within = omega (arith, e.within);
    returned = e.returned;
    waited = omega (arith, e.waited);
    failed_before = λ i a b. elim (Bool-cases (nat_beq i k)) [
      | inl hit ↦ subst (λ j. (probe j).success ≡ false) (sym ((nat_beq_iff i k).0 hit)) f
      | inr miss ↦ e.failed_before i (ground arith) b
    ];
    in_time = λ i a b. elim (Bool-cases (nat_beq i (suc k))) [
      | inl hit ↦ subst (λ j. cancelled j ≡ false) (sym ((nat_beq_iff i (suc k)).0 hit)) c
      | inr miss ↦ e.in_time i (ground arith) b
    ];
    stopped = elim e.stopped [
      | inl s ↦ inl s
      | inr (inl s) ↦ inr (inl (omega arith))
      | inr (inr s) ↦ inr (inr s)
    ];
  }

  retry_loop-Ends :
      (p : RetryPolicy) (left k : ℕ) (delay : ℤ)
      → (probe k).success ≡ false
      → Ends k left (retry_loop probe cancelled p left (suc k) delay (attempt_result k))
  unfolding retry_loop
  retry_loop-Ends p zero k delay f = stay k zero (inr (inl (omega arith)))
  retry_loop-Ends p (suc left) k delay f =
      if-elim (Ends k (suc left)) (cancelled (suc k)) (λ c. stay k (suc left) (inr (inr c)))
        λ c.
          if-elim (Ends k (suc left)) (probe (suc k)).success
            (λ s.
              advance_by_one k left delay (attempt_result (suc k), []) f c
                (stay (suc k) left (inl s)))
            (λ s.
              advance_by_one k left delay _ f c
                (retry_loop-Ends p left (suc k) (next_delay p delay) s))

  with_policy-Ends :
      (retry : Option RetryPolicy)
      → (probe 0).success ≡ false
      → Ends 0 (limit retry) (with_policy probe cancelled retry (probe 0))
  unfolding with_policy
  with_policy-Ends none f = stay 0 0 (inr (inl (omega arith)))
  with_policy-Ends (some p) f =
      if-elim (Ends 0 (pos_part p.count)) (leb_ℤ p.count (pos 0))
        (λ h. stay 0 (pos_part p.count) (inr (inl (ground arith))))
        (λ h. retry_loop-Ends p (pos_part p.count) 0 (pos (first_delay p)) f)

  -- `RunWithRetry` returns attempt `last`, stamped with its number, after one wait for each retry:
  -- every attempt before it failed, the context was alive through each wait, and it stopped because
  -- that attempt succeeded, because the policy allows no more, or because the context is done.
  pub run_with_retry-Ends :
      (retry : Option RetryPolicy) → Ends 0 (limit retry) (run_with_retry probe cancelled retry)
  unfolding run_with_retry
  run_with_retry-Ends retry =
      if-elim (Ends 0 (limit retry)) (probe 0).success (λ s. stay 0 (limit retry) (inl s))
        (with_policy-Ends retry)

  Nat-order : (m n : ℕ) → (m < n) ⊎ ((m ≡ n) ⊎ (n < m))
  Nat-order m n = elim (Bool-cases (ltb m n)) [
    | inl h ↦ inl (ltb→lt m n h)
    | inr h ↦ elim (Bool-cases (nat_beq m n)) [
      | inl t ↦ inr (inl ((nat_beq_iff m n).0 t))
      | inr t ↦ inr (inr (ground arith))
    ]
  ]

  attempt_result-success : (k : ℕ) → (attempt_result k).success ≡ (probe k).success
  attempt_result-success zero = refl
  attempt_result-success (suc k) = refl

  -- If attempt `k` would succeed, the policy allows that many retries and the context lives through
  -- the waits up to it, `RunWithRetry` returns a success.
  pub run_with_retry-success :
      (retry : Option RetryPolicy) (k : ℕ)
      → k ≤ limit retry
      → (probe k).success ≡ true
      → ((i : ℕ) → 0 < i → i ≤ k → cancelled i ≡ false)
      → (run_with_retry probe cancelled retry).0.success ≡ true
  run_with_retry-success retry k allowed good alive =
      let e = run_with_retry-Ends retry in
      let ends : (probe e.last).success ≡ true = elim (Nat-order e.last k) [
        | inl before ↦ elim e.stopped [
          | inl s ↦ s
          | inr (inl at_limit) ↦ absurd (omega arith)
          | inr (inr gone) ↦ absurd (ground (arith, alive (suc e.last) (omega arith) before))
        ]
        | inr (inl here) ↦ rw here good
        | inr (inr later) ↦ absurd (ground (arith, e.failed_before k (omega arith) later))
      ] in
      ap (λ (r : Result F). r.success) e.returned ∙ attempt_result-success e.last ∙ ends
