-- ===== src/Check/Report.antt =====
-- What the checkers of internal/check share when they end a run: the duration with an error or with
-- success, the address that they dial, and the default of a timeout.
use technician.Common.{
  ℕ, Bool, true, false, Option, none, some, List, [], ◌∷◌, if◌then◌else◌, ◌==◌, nat_eq, Str, str_eq,
}
use technician.Common.Int.{ℤ, pos, int_eq}
use technician.Common.Text.{codes, itoa, joined}
use technician.Check.{Result}

-- `fmt.Sprintf("%s:%d", host, port)`
abbrev pub host_port : Str → ℤ → Str
host_port host port = joined (host ∷ codes ":" ∷ itoa port ∷ [])

abbrev pub or_default : ℤ → ℤ → ℤ
or_default d timeout = if timeout == pos 0 then d else timeout

abbrev pub five_seconds : ℤ
five_seconds = pos 5000000000

abbrev pub half_minute : ℤ
half_minute = pos 30000000000

-- A call that gives an error or nothing succeeds if it gives nothing.
abbrev pub is_done : {A : Type 0} → Option A → Bool
is_done none = true
is_done (some e) = false

module _ {F : Type 0} where
  abbrev pub fails : ℕ → List Str → Result F → Result F
  fails elapsed message r = record r { duration = elapsed; error = joined message }

  abbrev pub succeeds : ℕ → Result F → Result F
  succeeds elapsed r = record r { duration = elapsed; success = true }
