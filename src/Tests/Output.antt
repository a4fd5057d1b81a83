-- ===== src/Tests/Output.antt =====
-- The properties of the history and of the metrics at concrete inputs.
use technician.Common.{
  ℕ, ◌≤◌, ◌≡◌, refl, true, false, List, [], ◌∷◌, map, arith, length, every, nat_eq, str_eq,
}
use technician.Common.Float.{whole}
use technician.Common.Text.{codes}
use technician.Check.{Result}
use technician.History.{
  HistoryEvent, recorded, received, flush_tick, prune_tick, run, close, new_history, row_of,
}
use technician.History.Delivery.{recent, all_admitted, close-run}
use technician.Metrics.{Cardinality, record_result}
use technician.Metrics.Series.Labelled.{are_labelled}
use technician.Metrics.Labels.{record_result-are_labelled}
use technician.Metrics.Guard.{knows, tracked, guard_after, tracked-Keeps}
use technician.Tests.Data.{web}

-- Two results, one of which is written before the history is closed.
abbrev rounds : List (HistoryEvent ℕ)
rounds =
    recorded (web true 5000000)
    ∷ received true
    ∷ flush_tick true
    ∷ prune_tick 1
    ∷ recorded (web false 9000000)
    ∷ []

close-run_example :
    recent 2 (close true (run rounds (new_history []))).table
    ≡ recent 2 (map row_of (all_admitted rounds (new_history [])))
close-run_example = close-run 2 rounds [] (tt, (refl, (refl, (omega arith, (tt, tt)))))

abbrev one_name : Cardinality
one_name = record { limit = 1; seen = []; warned = false }

record_result-are_labelled_example :
    are_labelled (record_result whole 3 (web true 9) one_name).1 ≡ true
record_result-are_labelled_example = record_result-are_labelled whole 3 (web true 9) one_name

abbrev two_names : List (ℕ × Result ℕ)
two_names = (3, web true 9) ∷ (4, record (web true 9) { name = codes "other" }) ∷ []

tracked-Keeps_example :
    (every (knows (guard_after whole two_names one_name).seen) (tracked whole two_names one_name)
      ≡ true)
    × (length (guard_after whole two_names one_name).seen ≤ 1)
tracked-Keeps_example = tracked-Keeps whole two_names one_name (omega arith)
