-- ===== src/Tests/Scheduler.antt =====
-- The properties of the scheduler at concrete inputs.
use technician.Common.{
  ℕ, ◌≤◌, ◌<◌, ◌≡◌, refl, none, true, some, [], ◌∷◌, ◌++◌, arith, length, get_elem?, nat_eq, str_eq,
}
use technician.Scheduler.Retry.{run_with_retry}
use technician.Scheduler.Retry.Attempts.{Ends, run_with_retry-Ends}
use technician.Scheduler.Retry.Waits.{run_with_retry-wait}
use technician.Scheduler.Execute.{capacity, execute, publish, receive}
use technician.Scheduler.Execute.Channel.{
  send, take_one, after, received, kept, received-append-after,
}
use technician.Common.Maps.{lookup}
use technician.Config.Kind.{text}
use technician.Scheduler.Stagger.{compute_stagger}
use technician.Scheduler.Loops.{
  Registry, get, loops, run_initial, start, Running, Task, ticking, running_once, finished, stopped,
  first_over, cancel, move, end_run, close, Reach, here, next,
}
use technician.Scheduler.Loops.Closing.{IsOrderly, start-IsOrderly}
use technician.Scheduler.Loops.Shutdown.{Winds, cancelled-closes}
use technician.Common.Int.{pos}
use technician.Config.Cases.{base_config}
use technician.Tests.Data.{web, flaky, never, twice_linear, slow_check, plain}

run_with_retry-Ends_example : Ends flaky never 0 2 (run_with_retry flaky never (some twice_linear))
run_with_retry-Ends_example = run_with_retry-Ends flaky never (some twice_linear)

one_wait : 0 < length (run_with_retry flaky never (some twice_linear)).1
unfolding run_with_retry
one_wait = omega arith

run_with_retry-wait_example :
    get_elem? (run_with_retry flaky never (some twice_linear)).1 0 ≡ some (pos 500)
run_with_retry-wait_example = run_with_retry-wait flaky never twice_linear 0 one_wait (omega arith)

received-append-after_example :
    (received [] (send (web true 1) ∷ take_one ∷ send (web true 2) ∷ [])
        ++ after [] (send (web true 1) ∷ take_one ∷ send (web true 2) ∷ [])
      ≡ web true 1 ∷ web true 2 ∷ [])
    × (length (after [] (send (web true 1) ∷ take_one ∷ send (web true 2) ∷ [])) ≤ capacity)
unfolding kept publish receive
received-append-after_example =
    received-append-after [] (send (web true 1) ∷ take_one ∷ send (web true 2) ∷ []) (omega arith)

-- A registry with one checker, of the type of the check.
abbrev one_checker : Registry ℕ
one_checker = (text slow_check.typ, 0) ∷ []

abbrev ready : Running ℕ
ready = start one_checker none (λ s. true) (slow_check ∷ [])

abbrev first_run : Task
first_run = record { check = slow_check; stagger = 0; phase = running_once }

abbrev its_loop : Task
its_loop = record { check = slow_check; stagger = 0; phase = ticking }

ready_tasks : ready.tasks ≡ its_loop ∷ first_run ∷ []
unfolding start loops run_initial get lookup text compute_stagger base_config
ready_tasks = refl

-- Both goroutines end, and the channel is closed.
shut_down : Reach plain ready (record ready {
  tasks = record its_loop { phase = finished } ∷ record first_run { phase = finished } ∷ [];
  cancelled = true;
  closed = true;
  results = execute plain flaky never slow_check [];
})
unfolding start
shut_down =
    next
      (next
        (next (next here cancel)
          (move [] (first_run ∷ []) its_loop finished ready_tasks (stopped refl refl)))
        (end_run (record its_loop { phase = finished } ∷ []) [] first_run finished flaky never refl
          (first_over refl)))
      (close refl refl refl)

start-IsOrderly_example : IsOrderly plain (record ready {
  tasks = record its_loop { phase = finished } ∷ record first_run { phase = finished } ∷ [];
  cancelled = true;
  closed = true;
  results = execute plain flaky never slow_check [];
})
start-IsOrderly_example =
    start-IsOrderly plain one_checker none (λ s. true) (slow_check ∷ []) _ shut_down

cancelled-closes_example :
    (s' : Running ℕ) × Winds plain (record ready { cancelled = true }) s' × (s'.closed ≡ true)
cancelled-closes_example =
    cancelled-closes plain (web true 1) (record ready { cancelled = true }) refl
