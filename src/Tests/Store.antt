-- ===== src/Tests/Store.antt =====
-- The properties of the status store at concrete inputs.
use technician.Common.{◌≡◌, refl, true, false, [], ◌∷◌, arith, nat_eq, Str, str_eq}
use technician.Common.Float.{whole}
use technician.Common.Maps.{lookup, lookup_or}
use technician.Common.Text.{codes}
use technician.Config.Kind.{http, text}
use technician.Status.Store.{Store, check_key, entry_of, record_budget_check}
use technician.Status.Store
use technician.Status.Store.History.{HasValidRings, history_of, push_all-history}
use technician.Status.Store.Down.{down_of, push_all-down}
use technician.Status.Store.Streaks.{record_all, record_budget_check-signal}
use technician.Tests.Data.{empty, web, cert}

pub empty-HasValidRings : HasValidRings empty
unfolding lookup
empty-HasValidRings k g e = absurd (ground arith)

abbrev web_key : Str
web_key = check_key http (codes "web")

push_all-history_example :
    history_of web_key (Store.push_all whole empty (web true 1 ∷ cert 5 2 ∷ web false 3 ∷ []))
    ≡ entry_of whole (web true 1) ∷ entry_of whole (web false 3) ∷ []
unfolding check_key lookup text
push_all-history_example =
    push_all-history whole empty (web true 1 ∷ cert 5 2 ∷ web false 3 ∷ []) web_key
      empty-HasValidRings

push_all-down_example :
    down_of web_key
      (Store.push_all whole empty (web true 1 ∷ cert 5 2 ∷ web false 3 ∷ web false 4 ∷ []))
    ≡ 3
unfolding check_key text
push_all-down_example =
    push_all-down whole empty (web true 1 ∷ cert 5 2 ∷ web false 3 ∷ web false 4 ∷ []) []
      (web true 1) (web false 3) (web false 4 ∷ []) web_key refl refl refl refl (omega arith)

record_budget_check-signal_example :
    (record_budget_check
      (record_all empty (codes "web") (codes "dns") (true ∷ false ∷ true ∷ true ∷ []))
      (codes "web")
      (codes "dns")
      true).1
    ≡ true
unfolding lookup_or
record_budget_check-signal_example =
    record_budget_check-signal empty (codes "web") (codes "dns") (true ∷ false ∷ true ∷ true ∷ [])
      true refl
