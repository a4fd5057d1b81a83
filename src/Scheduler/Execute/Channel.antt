-- ===== src/Scheduler/Execute/Channel.antt =====
-- What an execution puts on the channel, and how the channel's contents relate to what was sent.
use technician.Common.{
  ℕ, ◌≤◌, ◌<◌, ◌≡◌, refl, sym, ap, ◌∙◌, inl, inr, Bool, true, ◌&&◌, ◌||◌, List, [], ◌∷◌, ◌++◌,
  append_assoc, append-nil, arith, ltb, if◌then◌else◌, Bool-cases, if-elim, length, take,
  length-append, length-drop, nat_eq, Str, str_eq,
}
use technician.Common.Int.{pos, ltb_ℤ}
use technician.Check.{Result, degraded_latency}
use technician.Config.Types.{CheckConfig}
use technician.Config.Convert.{Platform}
use technician.Config.Target.{target}
use technician.Scheduler.Retry.{run_with_retry}
use technician.Scheduler.Retry.Attempts.{attempt_result, limit, run_with_retry-Ends}
use technician.Scheduler.Execute.{capacity, annotate, publish, receive, execute}

-- A step of the channel: a check sends a result, or the worker takes one.
pub data Step (F : Type 0) : Type 0 where
  send : Result F → Step F
  take_one : Step F

module _ {F : Type 0} where
  unfoldable pub after : List (Result F) → List (Step F) → List (Result F)
  after queue [] = queue
  after queue (send r ∷ steps) = after (publish queue r) steps
  after queue (take_one ∷ steps) = after (receive queue) steps

  -- The results that the steps hand to the worker.
  unfoldable pub received : List (Result F) → List (Step F) → List (Result F)
  received queue [] = []
  received queue (send r ∷ steps) = received (publish queue r) steps
  received queue (take_one ∷ steps) = take 1 queue ++ received (receive queue) steps

  -- The results that the steps put on the channel: those sent while it is not full.
  unfoldable pub kept : List (Result F) → List (Step F) → List (Result F)
  kept queue [] = []
  kept queue (send r ∷ steps) =
      if ltb (length queue) capacity
      then r ∷ kept (publish queue r) steps
      else kept (publish queue r) steps
  kept queue (take_one ∷ steps) = kept (receive queue) steps

  publish-length :
      (queue : List (Result F)) (r : Result F)
      → length queue ≤ capacity
      → length (publish queue r) ≤ capacity
  unfolding publish
  publish-length queue r h = ground (arith, length-append queue (r ∷ []))

  take_one-receive : (queue : List (Result F)) → take 1 queue ++ receive queue ≡ queue
  unfolding receive
  take_one-receive [] = refl
  take_one-receive (r ∷ rs) = refl

  receive-length : (queue : List (Result F)) → length (receive queue) ≤ length queue
  unfolding receive
  receive-length queue = omega (arith, length-drop 1 queue)

  publish-kept :
      (queue : List (Result F)) (r : Result F) (steps : List (Step F))
      → publish queue r ++ kept (publish queue r) steps ≡ queue ++ kept queue (send r ∷ steps)
  unfolding publish kept
  publish-kept queue r steps = elim (Bool-cases (ltb (length queue) capacity)) [
    | inl e ↦ rw e (append_assoc queue (r ∷ []) (kept (queue ++ r ∷ []) steps))
    | inr e ↦ rw e refl
  ]

  -- However sends and receives interleave, the worker gets the results that were sent while the
  -- channel was not full, each once and in the order of sending, and the rest of them wait in the
  -- channel, which never holds more than its capacity.
  pub received-append-after :
      (queue : List (Result F)) (steps : List (Step F))
      → length queue ≤ capacity
      → (received queue steps ++ after queue steps ≡ queue ++ kept queue steps)
        × (length (after queue steps) ≤ capacity)
  unfolding received after kept
  received-append-after queue [] h = (sym (append-nil queue), h)
  received-append-after queue (send r ∷ steps) h =
      let (eq, len) = received-append-after (publish queue r) steps (publish-length queue r h) in
      (eq ∙ publish-kept queue r steps, len)
  received-append-after queue (take_one ∷ steps) h =
      let (eq, len) =
        received-append-after (receive queue) steps (omega (arith, receive-length queue)) in
      (
        append_assoc (take 1 queue) (received (receive queue) steps) (after (receive queue) steps)
            ∙ ap (λ xs. take 1 queue ++ xs) eq
            ∙ sym (append_assoc (take 1 queue) (receive queue) (kept (receive queue) steps))
            ∙ ap (λ xs. xs ++ kept (receive queue) steps) (take_one-receive queue),
        len,
      )

-- Whether a check's threshold marks a result as degraded.
abbrev pub too_slow : {F : Type 0} → CheckConfig → Result F → Bool
too_slow cfg r =
    ltb_ℤ (pos 0) cfg.degraded_after
    && r.success
    && ltb_ℤ cfg.degraded_after (pos (degraded_latency r))

module _ {F : Type 0} (p : Platform) where
  degraded_latency-annotated :
      (g t : Str) (r : Result F)
      → degraded_latency (record r { group = g; target = t }) ≡ degraded_latency r
  unfolding degraded_latency
  degraded_latency-annotated g t r = refl

  annotate-parts :
      (cfg : CheckConfig) (r : Result F)
      → ((annotate p cfg r).group ≡ cfg.group)
        × ((annotate p cfg r).target ≡ target p cfg)
        × ((annotate p cfg r).success ≡ r.success)
        × ((annotate p cfg r).retries ≡ r.retries)
        × ((annotate p cfg r).degraded ≡ (too_slow cfg r || r.degraded))
  unfolding annotate
  annotate-parts cfg r = rw (degraded_latency-annotated cfg.group (target p cfg) r) (
      if-elim
        (λ (x : Result F).
          (x.group ≡ cfg.group)
          × (x.target ≡ target p cfg)
          × (x.success ≡ r.success)
          × (x.retries ≡ r.retries)
          × (x.degraded ≡ (too_slow cfg r || r.degraded)))
        (too_slow cfg r)
        {x = record r { group = cfg.group; target = target p cfg; degraded = true }}
        {y = record r { group = cfg.group; target = target p cfg }}
        (λ e. (refl, refl, refl, refl, rw e refl)) (λ e. (refl, refl, refl, refl, rw e refl)))

  -- What an execution publishes on a channel with room is the attempt on which the retries end, with
  -- the check's group and target, its outcome unchanged, and marked as degraded exactly if it
  -- succeeded and took longer than a positive threshold, or if the checker had marked it.
  pub execute-annotated :
      (probe : ℕ → Result F) (cancelled : ℕ → Bool) (cfg : CheckConfig) (queue : List (Result F))
      → length queue < capacity
      → (out : Result F) × (execute p probe cancelled cfg queue ≡ queue ++ out ∷ [])
        × (out.group ≡ cfg.group)
        × (out.target ≡ target p cfg)
        × ((last : ℕ) × (last ≤ limit cfg.retry)
            × (out.success ≡ (attempt_result probe cancelled last).success)
            × (out.retries ≡ (attempt_result probe cancelled last).retries)
            × (out.degraded ≡ (
                too_slow cfg (attempt_result probe cancelled last)
                || (attempt_result probe cancelled last).degraded)))
  unfolding execute publish
  execute-annotated probe cancelled cfg queue room =
      let r = (run_with_retry probe cancelled cfg.retry).0 in
      let e = run_with_retry-Ends probe cancelled cfg.retry in
      let (g, t, s, n, d) = annotate-parts cfg r in
      (
        annotate p cfg r,
        ground (arith),
        g,
        t,
        (
          e.last,
          omega (arith, e.within),
          s ∙ ap (λ (x : Result F). x.success) e.returned,
          n ∙ ap (λ (x : Result F). x.retries) e.returned,
          d ∙ ap (λ (x : Result F). too_slow cfg x || x.degraded) e.returned,
        ),
      )
