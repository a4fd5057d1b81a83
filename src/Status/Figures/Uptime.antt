-- ===== src/Status/Figures/Uptime.antt =====
-- What `uptimePercent` counts.
use technician.Common.{
  ℕ, ◌+◌, ◌≡◌, refl, ap, ◌∙◌, Bool, not, ◌&&◌, List, [], ◌∷◌, ◌++◌, arith, nat_beq, if◌then◌else◌,
  length, select, nat_eq, Str, str_eq,
}
use technician.Common.Float.{Floats}
use technician.Common.Text.{codes}
use technician.Status.Ring.{Entry}
use technician.Status.Figures.{counts_as_run, count_up, no_uptime, percent_text, uptime_percent}

abbrev pub reached : {F : Type 0} → Entry F → Bool
reached e = not e.infra_error

count_up-select :
    {F : Type 0} (es : List (Entry F)) (up total : ℕ)
    → count_up es up total
      ≡ (up + length (select counts_as_run es), total + length (select reached es))
unfolding count_up
count_up-select [] up total = ground arith
count_up-select (e ∷ es) up total = ground (
  arith,
  count_up-select es (if not e.infra_error && e.success then up + 1 else up)
      (if e.infra_error then total else total + 1),
)

-- How `up` of `total` runs are shown.
abbrev pub shown : {F : Type 0} → Floats F → (F → Str) → ℕ → ℕ → Str
shown fl format up total =
    let share = fl.mul (fl.div (fl.of_ℕ up) (fl.of_ℕ total)) (fl.of_ℕ 100) in
    if nat_beq total 0
    then no_uptime
    else if fl.equal share (fl.of_ℕ 100)
    then codes "100%"
    else format share ++ codes "%"

-- The uptime is a dash if no entry reached its target, `100%` if the share of successes comes out as
-- that, and else that share of the entries that reached their target, infrastructure errors left out
-- of both numbers.
pub uptime_percent-shown :
    {F : Type 0} (fl : Floats F) (format : F → Str) (es : List (Entry F))
    → uptime_percent fl format es
      ≡ shown fl format (length (select counts_as_run es)) (length (select reached es))
unfolding uptime_percent percent_text
uptime_percent-shown fl format [] = refl
uptime_percent-shown fl format (e ∷ es) =
    let zeros : (◌≡◌ {A = ℕ × ℕ}
        (0 + length (select counts_as_run (e ∷ es)), 0 + length (select reached (e ∷ es)))
        (length (select counts_as_run (e ∷ es)), length (select reached (e ∷ es)))) =
      ground arith in
    ap (percent_text fl format) (count_up-select (e ∷ es) 0 0 ∙ zeros)
