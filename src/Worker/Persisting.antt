-- ===== src/Worker/Persisting.antt =====
-- What `/health` tells of the saves that the ticks make.
use technician.Common.{
  ◌≡◌, refl, sym, ap, ◌∙◌, ◌≢◌, Bool, not, List, [], ◌∷◌, map, arith, ltb, if◌then◌else◌, nat_eq,
  Str, str_beq_iff, str_eq,
}
use technician.Status.Store.{Store, write_failure_threshold, write_healthy, record_write_result}
use technician.Status.Store.Streaks.{write_all, write_healthy_iff}
use technician.Common.Streak.{trailing}
use technician.Status.Persistence.{PersistedStore}
use technician.Status.Persistence.Files.{Os, Json, is_nil, save, save_counted}
use technician.Worker.{health, Tick, save_tick, backup_tick, on_tick, on_ticks}

module _ {D B F : Type 0} (os : Os D B) (json : Json (PersistedStore F) B) (path : Str) where
  -- Whether each of the saves that the ticks make has no error.
  unfoldable pub outcomes : List Tick → Store F × D → List Bool
  outcomes [] sd = []
  outcomes (save_tick ∷ ts) (s, d) =
      is_nil (save os json path s d).1 ∷ outcomes ts (on_tick os json path save_tick (s, d))
  outcomes (backup_tick now ∷ ts) sd = outcomes ts (on_tick os json path (backup_tick now) sd)

  on_tick-save :
      (s : Store F) (d : D)
      → path ≢ []
      → on_tick os json path save_tick (s, d)
        ≡ (record_write_result s (is_nil (save os json path s d).1), (save os json path s d).0)
  unfolding on_tick save_counted
  on_tick-save s d named = ground (arith, named, str_beq_iff path [])

  on_ticks-write_all :
      (ts : List Tick) (s : Store F) (d : D)
      → path ≢ []
      → (on_ticks os json path ts (s, d)).0 ≡ write_all s (outcomes ts (s, d))
  unfolding on_ticks write_all outcomes save_counted
  on_ticks-write_all [] s d named = refl
  on_ticks-write_all (backup_tick now ∷ ts) s d named = on_ticks-write_all ts s _ named
  on_ticks-write_all (save_tick ∷ ts) s d named =
      let r = is_nil (save os json path s d).1 in
      ap (λ sd. (on_ticks os json path ts sd).0) (on_tick-save s d named)
      ∙ on_ticks-write_all ts (record_write_result s r) (save os json path s d).0 named
      ∙ ap (λ sd. write_all (record_write_result s r) (outcomes ts sd))
          (sym (on_tick-save s d named))

-- From a store without failed saves, whatever saves and backups the ticks make of it, `/health` answers
-- 503 exactly while the last five saves or more have failed, and 200 otherwise.
pub on_ticks-health :
    {D B F : Type 0} (os : Os D B) (json : Json (PersistedStore F) B) (path : Str) (ts : List Tick)
    (s : Store F) (d : D)
    → path ≢ []
    → s.consecutive_write_fail ≡ 0
    → (health (on_ticks os json path ts (s, d)).0).status ≡ (
        if ltb (trailing (map not (outcomes os json path ts (s, d)))) write_failure_threshold
        then 200
        else 503)
unfolding health
on_ticks-health os json path ts s d named none_failed =
    let oks = outcomes os json path ts (s, d) in
    ground (
      arith,
      ap write_healthy (on_ticks-write_all os json path ts s d named),
      write_healthy_iff s oks none_failed,
    )
