-- ===== src/Notify/Transitions.antt =====
-- The events of a check: `check_down` at the third failure in a row, `check_up` at the success that
-- ends a run of at least three.
use technician.Common.{
  ℕ, suc, ◌+◌, ◌≡◌, refl, ap, ◌∙◌, inl, inr, Bool, true, false, not, ◌&&◌, ◌||◌, Option, none, some,
  List, [], ◌∷◌, map, arith, leb, nat_beq, if◌then◌else◌, Bool-cases, length, every, length-map,
  ◌==◌, nat_eq, Str, str_beq_iff, str_eq,
}
use technician.Common.Streak.{trailing, every-trailing}
use technician.Common.Maps.{
  Map, insert, has_key, lookup_or, lookup-insert, lookup_or-insert, lookup_or-delete,
}
use technician.Check.{Result}
use technician.Status.Store.{check_key}
use technician.Notify.Manager.{
  Event, EventType, check_down, check_up, Manager, consecutive_fail_threshold, dispatch,
}
use technician.Notify.Handlers.{advance, handle_result, handle_budget_violation, handle_cert_result}

-- What the manager knows of one check.
pub record Phase : Type 0 where
  pub seen : Bool
  pub fails : ℕ
  pub alerted : Bool

abbrev pub fresh : Phase
fresh = record { seen = false; fails = 0; alerted = false }

unfoldable pub phase_of : Str → Manager → Phase
phase_of k m = record {
  seen = has_key k m.check_states;
  fails = lookup_or k 0 m.fail_counts;
  alerted = lookup_or k false m.notified_down;
}

next : Phase → Bool → Phase
next p ok =
    if not p.seen
    then record p { seen = true }
    else if ok
    then record { seen = true; fails = 0; alerted = false }
    else record {
      seen = true;
      fails = p.fails + 1;
      alerted = nat_beq (p.fails + 1) consecutive_fail_threshold || p.alerted;
    }

emits : Phase → Bool → Option EventType
emits p ok =
    if not p.seen
    then none
    else if ok
    then (if p.alerted then some check_up else none)
    else if nat_beq (p.fails + 1) consecutive_fail_threshold && not p.alerted
    then some check_down
    else none

abbrev pub raised : Option Event → Option EventType
raised none = none
raised (some ev) = some ev.typ

has_key-insert {ℓ} :
    {V : Type ℓ} (k j : Str) (v : V) (m : Map Str V)
    → has_key j (insert k v m) ≡ (if k == j then true else has_key j m)
unfolding has_key
has_key-insert k j v m = ground (arith, lookup-insert k j v m)

module _ {F : Type 0} where
  advance-phase :
      (m : Manager) (r : Result F) (k : Str)
      → phase_of k (advance m r).0 ≡ (
          if not r.infra_error && check_key r.typ r.name == k
          then next (phase_of k m) r.success
          else phase_of k m)
  unfolding phase_of next advance
  advance-phase m r k =
      let key = check_key r.typ r.name in
      ground (
        arith,
        has_key-insert key k r.success m.check_states,
        lookup_or-insert key k 0 0 m.fail_counts,
        lookup_or-insert key k 0 (lookup_or key 0 m.fail_counts + 1) m.fail_counts,
        lookup_or-delete key k false m.notified_down,
        lookup_or-insert key k false true m.notified_down,
        str_beq_iff key k,
      )

  advance-event :
      (m : Manager) (r : Result F)
      → raised (advance m r).1
        ≡ (if r.infra_error then none else emits (phase_of (check_key r.typ r.name) m) r.success)
  unfolding phase_of emits advance
  advance-event m r = ground arith

phase_from : Phase → List Bool → Phase
phase_from p [] = p
phase_from p (ok ∷ oks) = phase_from (next p ok) oks

dispatch-phase :
    (now : ℕ) (ev : Event) (m : Manager) (k : Str) → phase_of k (dispatch now ev m).0 ≡ phase_of k m
unfolding dispatch phase_of
dispatch-phase now ev m k = refl

module _ {F : Type 0} where
  handle_result-phase :
      (now : ℕ) (m : Manager) (r : Result F) (k : Str)
      → phase_of k (handle_result now m r).0 ≡ phase_of k (advance m r).0
  unfolding handle_result dispatch phase_of
  handle_result-phase now m r k = ground arith

  handle_cert_result-phase :
      (format_date : ℕ → Str) (now : ℕ) (m : Manager) (r : Result F) (k : Str)
      → phase_of k (handle_cert_result format_date now m r).0 ≡ phase_of k m
  unfolding handle_cert_result dispatch phase_of
  handle_cert_result-phase format_date now m r k = ground arith

handle_budget_violation-phase :
    (now : ℕ) (m : Manager) (check metric : Str) (v : Bool) (k : Str)
    → phase_of k (handle_budget_violation now m check metric v).0 ≡ phase_of k m
unfolding handle_budget_violation dispatch phase_of
handle_budget_violation-phase now m check metric v k = ground arith

-- A call of the manager by the worker, at an instant.
pub data Call (F : Type 0) : Type 0 where
  results certs : Result F → Call F
  budgets : Str → Str → Bool → Call F

module _ {F : Type 0} where
  -- The outcomes, oldest first, of the runs of a check that reached its target.
  abbrev pub outcomes : Str → List (ℕ × Call F) → List Bool
  outcomes k [] = []
  outcomes k ((now, results r) ∷ cs) =
      if not r.infra_error && check_key r.typ r.name == k
      then r.success ∷ outcomes k cs
      else outcomes k cs
  outcomes k (c ∷ cs) = outcomes k cs

module _ {F : Type 0} (format_date : ℕ → Str) where
  unfoldable pub call : Manager → ℕ × Call F → Manager × List ℕ
  call m (now, results r) = handle_result now m r
  call m (now, certs r) = handle_cert_result format_date now m r
  call m (now, budgets check metric v) = handle_budget_violation now m check metric v

  unfoldable pub run : Manager → List (ℕ × Call F) → Manager
  run m [] = m
  run m (c ∷ cs) = run (call m c).0 cs

  run-phase :
      (m : Manager) (cs : List (ℕ × Call F)) (k : Str)
      → phase_of k (run m cs) ≡ phase_from (phase_of k m) (outcomes k cs)
  unfolding run call phase_from
  run-phase m [] k = refl
  run-phase m ((now, results r) ∷ cs) k =
      run-phase (handle_result now m r).0 cs k
      ∙ rw (handle_result-phase now m r k)
          (elim (Bool-cases (not r.infra_error && check_key r.typ r.name == k)) [
            | inl hit ↦ rw (advance-phase m r k, hit)
            | inr miss ↦ rw (advance-phase m r k, miss)
          ])
  run-phase m ((now, certs r) ∷ cs) k =
      run-phase (handle_cert_result format_date now m r).0 cs k
      ∙ ap (λ p. phase_from p (outcomes k cs)) (handle_cert_result-phase format_date now m r k)
  run-phase m ((now, budgets check metric v) ∷ cs) k =
      run-phase (handle_budget_violation now m check metric v).0 cs k
      ∙ ap (λ p. phase_from p (outcomes k cs))
          (handle_budget_violation-phase now m check metric v k)

-- The failures at the end of the outcomes, after a phase that counts `n` of them.
abbrev count_after : ℕ → List Bool → ℕ
count_after n os = if every (λ x. x) (map not os) then n + length os else trailing (map not os)

-- Once a check has been seen, its phase is told by the failures at the end of its outcomes.
phase_from-steady :
    (p : Phase) (os : List Bool)
    → p.seen ≡ true
    → p.alerted ≡ leb consecutive_fail_threshold p.fails
    → ((phase_from p os).seen ≡ true)
      × ((phase_from p os).fails ≡ count_after p.fails os)
      × ((phase_from p os).alerted ≡ leb consecutive_fail_threshold (count_after p.fails os))
unfolding phase_from next
phase_from-steady p [] h a = ground arith
phase_from-steady p (o ∷ os) h a =
    ground (arith, phase_from-steady (next p o) os, every-trailing (map not os), length-map os not)

-- What a check's outcomes so far, and the success of the next run, say that the manager raises.
abbrev pub expected : List Bool → Bool → Option EventType
expected [] ok = none
expected (o ∷ os) true =
    if leb consecutive_fail_threshold (trailing (map not os)) then some check_up else none
expected (o ∷ os) false =
    if nat_beq (suc (trailing (map not os))) consecutive_fail_threshold
    then some check_down
    else none

emits-expected : (os : List Bool) (ok : Bool) → emits (phase_from fresh os) ok ≡ expected os ok
unfolding emits phase_from next
emits-expected [] ok = refl
emits-expected (o ∷ os) ok =
    let steady =
      phase_from-steady (record { seen = true; fails = 0; alerted = false }) os refl refl in
    ground (arith, steady, every-trailing (map not os), length-map os not)

-- For a check that the manager has not seen, after any calls, a run of it that reached its target
-- raises `check_down` exactly at the third failure in a row after its first run, `check_up` exactly at
-- the success that ends a run of at least three, and else nothing. The first run is never counted.
pub advance-expected :
    {F : Type 0} (format_date : ℕ → Str) (m : Manager) (cs : List (ℕ × Call F)) (r : Result F)
    → phase_of (check_key r.typ r.name) m ≡ fresh
    → r.infra_error ≡ false
    → raised (advance (run format_date m cs) r).1
      ≡ expected (outcomes (check_key r.typ r.name) cs) r.success
advance-expected format_date m cs r f e =
    let key = check_key r.typ r.name in
    advance-event (run format_date m cs) r
    ∙ rw (e, run-phase format_date m cs key, f) (emits-expected (outcomes key cs) r.success)
