-- ===== src/Check/Tcp/Receive.antt =====
-- The loop of the reads of the TCP checker ends, and with what.
use technician.Common.{
  ℕ, zero, suc, ◌+◌, ◌≤◌, ◌<◌, ◌≡◌, refl, sym, subst, ◌⊎◌, inl, inr, Bool, true, false, Option,
  none, some, [], ◌++◌, arith, ltb, nat_beq, nat_beq_iff, Bool-cases, Option-cases, if-elim, length,
  length-append, nat_eq, Str, str_eq,
}
use technician.Common.Text.{contains}
use technician.Check.Tcp.{
  Read, ReadError, eof, failed, Outcome, unfinished, max_recv_size, outcome_of, judge_read,
  receive_loop, receive_all, stopped, read_failed, too_long,
}

abbrev pub is_finished : Outcome → Bool
is_finished unfinished = false
is_finished _ = true

abbrev AreFinished : Option Outcome → Type 0
AreFinished none = Unit {0}
AreFinished (some o) = is_finished o ≡ true

outcome_of-AreFinished :
    (e : Option ReadError) (received : Str) → AreFinished (outcome_of e received)
unfolding outcome_of
outcome_of-AreFinished none received = tt
outcome_of-AreFinished (some eof) received = refl
outcome_of-AreFinished (some (failed e)) received = refl

judge_read-AreFinished :
    (expected received : Str) (e : Option ReadError) → AreFinished (judge_read expected received e)
unfolding judge_read
judge_read-AreFinished expected received e =
    if-elim AreFinished (contains received expected) (λ t. refl)
      (λ t.
        if-elim AreFinished (ltb max_recv_size (length received)) (λ u. refl)
          (λ u. outcome_of-AreFinished e received))

-- A round that goes on has met no error, and is not past the limit.
outcome_of-goes_on :
    (e : Option ReadError) (received : Str) → outcome_of e received ≡ none → e ≡ none
unfolding outcome_of
outcome_of-goes_on none received h = refl
outcome_of-goes_on (some eof) received h = absurd (ground arith)
outcome_of-goes_on (some (failed e)) received h = absurd (ground arith)

GoesOn : Str → Str → Option ReadError → Option Outcome → Type 0
GoesOn expected received e o =
    o ≡ none → (contains received expected ≡ false) × (length received ≤ 1048576) × (e ≡ none)

judge_read-GoesOn :
    (expected received : Str) (e : Option ReadError)
    → GoesOn expected received e (judge_read expected received e)
unfolding GoesOn judge_read
judge_read-GoesOn expected received e =
    if-elim (GoesOn expected received e) (contains received expected) (λ t h. absurd (ground arith))
      (λ t.
        if-elim (GoesOn expected received e) (ltb max_recv_size (length received))
          (λ u h. absurd (ground arith))
          (λ u h. (t, ground arith, outcome_of-goes_on e received h)))

-- What a round ends the loop with, of the text so far and the error of its read: the text if it has
-- the expected one in it, else its length if this is past the limit, else the error.
abbrev pub EndsWith : Str → Str → Option ReadError → Outcome → Type 0
EndsWith expected received e out =
    ((contains received expected ≡ true) × (out ≡ stopped received))
    ⊎ (((contains received expected ≡ false) × (1048576 < length received) × (out ≡ too_long))
        ⊎ ((contains received expected ≡ false)
            × (length received ≤ 1048576)
            × (((e ≡ some eof) × (out ≡ stopped received))
                ⊎ ((x : Str) × (e ≡ some (failed x)) × (out ≡ read_failed x)))))

outcome_of-ends :
    (e : Option ReadError) (received : Str) (out : Outcome)
    → outcome_of e received ≡ some out
    → ((e ≡ some eof) × (out ≡ stopped received))
      ⊎ ((x : Str) × (e ≡ some (failed x)) × (out ≡ read_failed x))
unfolding outcome_of
outcome_of-ends none received out h = absurd (ground (arith, h))
outcome_of-ends (some eof) received out h = inl (refl, cc)
outcome_of-ends (some (failed x)) received out h = inr (x, refl, cc)

Judges : Str → Str → Option ReadError → Option Outcome → Type 0
Judges expected received e o = (out : Outcome) → o ≡ some out → EndsWith expected received e out

judge_read-Judges :
    (expected received : Str) (e : Option ReadError)
    → Judges expected received e (judge_read expected received e)
unfolding Judges judge_read
judge_read-Judges expected received e =
    if-elim (Judges expected received e) (contains received expected) (λ t out h. inl (t, cc))
      (λ t.
        if-elim (Judges expected received e) (ltb max_recv_size (length received))
          (λ u out h. inr (inl (t, ground (arith, u), cc)))
          (λ u out h. inr (inr (t, ground (arith, u), outcome_of-ends e received out h))))

module _ (reads : ℕ → Read) (expected : Str) where
  -- What the first `k` reads give together.
  abbrev pub received_by : ℕ → Str
  received_by zero = []
  received_by (suc k) = received_by k ++ (reads k).bytes

  abbrev after_read : ℕ → Option Outcome
  unfolding judge_read
  after_read k = judge_read expected (received_by (suc k)) (reads k).error

  -- The loop ends by read `last`, the first one that ends it, and goes on while it has not the expected
  -- text, is within the limit and meets no error.
  pub record Ends (out : Outcome) : Type 0 where
    pub last : ℕ
    pub within : last ≤ 1048576
    pub ended : EndsWith expected (received_by (suc last)) (reads last).error out
    pub went_on :
        (i : ℕ)
        → i < last
        → (contains (received_by (suc i)) expected ≡ false)
          × (length (received_by (suc i)) ≤ 1048576)
          × ((reads i).error ≡ none)
    pub finished : is_finished out ≡ true

  -- A read gives a byte or an error.
  abbrev pub IsProductive : Type 0
  IsProductive = (k : ℕ) → (reads k).error ≡ none → 1 ≤ length (reads k).bytes

  went_on_too :
      (k : ℕ)
      → ((i : ℕ) → i < k → after_read i ≡ none)
      → after_read k ≡ none
      → (i : ℕ) → i < suc k
      → after_read i ≡ none
  went_on_too k before e i h = elim (Bool-cases (nat_beq i k)) [
    | inl here ↦ subst (λ j. after_read j ≡ none) (sym ((nat_beq_iff i k).0 here)) e
    | inr earlier ↦ before i (ground arith)
  ]

  -- A round of the loop, by what its read makes of it.
  abbrev this_round : ℕ → ℕ → Option Outcome → Outcome
  unfolding receive_loop
  this_round left k o = elim o [
    | some out ↦ out
    | none ↦ receive_loop reads expected left (suc k) (received_by (suc k))
  ]

  receive_loop-Ends :
      IsProductive
      → (left k : ℕ) → left + k ≡ suc max_recv_size
      → k ≤ max_recv_size
      → k ≤ length (received_by k)
      → ((i : ℕ) → i < k → after_read i ≡ none)
      → Ends (receive_loop reads expected left k (received_by k))
  unfolding receive_loop after_read GoesOn Judges this_round
  receive_loop-Ends productive zero k fuel below enough before = absurd (omega arith)
  receive_loop-Ends productive (suc left) k fuel below enough before =
      elim (Option-cases (judge_read expected (received_by (suc k)) (reads k).error)) [
        | inl e ↦
            let on = judge_read-GoesOn expected (received_by (suc k)) (reads k).error e in
            let byte = productive k on.2 in
            let more = length-append (received_by k) (reads k).bytes in
            subst (λ o. Ends (this_round left k o)) (sym e)
              (receive_loop-Ends productive left (suc k) (omega arith)
                (omega (arith, on.1, byte, more)) (omega (arith, byte, more))
                (went_on_too k before e))
        | inr (o, e) ↦
            subst (λ o. Ends (this_round left k o)) (sym e)
              (record {
                last = k;
                within = below;
                ended = judge_read-Judges expected (received_by (suc k)) (reads k).error o e;
                went_on = λ i h.
                    judge_read-GoesOn expected (received_by (suc i)) (reads i).error (before i h);
                finished =
                    subst AreFinished e
                      (judge_read-AreFinished expected (received_by (suc k)) (reads k).error);
              })
      ]

  -- If every read gives a byte or an error, the loop of the reads ends, within the limit of its size,
  -- with the first read after which it has the expected text, or is past the limit, or meets an error.
  pub receive_all-Ends : IsProductive → Ends (receive_all reads expected)
  unfolding receive_all
  receive_all-Ends productive =
      receive_loop-Ends productive (suc max_recv_size) 0 (omega arith) (omega arith) (omega arith)
        (λ i h. absurd (omega arith))
