-- ===== src/Config/Load/Ready.antt =====
-- Every check that is loaded has a timeout and a schedule.
use technician.Common.{
  ap, ◌≢◌, ◌⊎◌, inl, inr, Bool, true, false, List, [], ◌∷◌, map, arith, Bool-cases, nat_eq, Str,
  str_eq,
}
use technician.Common.Int.{pos}
use technician.Config.Types.{CheckConfig}
use technician.Config.Convert.{Platform}
use technician.Config.Target.{with_defaults, is_zero}
use technician.Config.Load.{
  Files, Loaded, broken, loaded, defaulted, found_path, load_checks_from_file, load_checks_from_dir,
  load_checks,
}

abbrev pub IsReady : CheckConfig → Type 0
IsReady c = (c.timeout ≢ pos 0) × (c.schedule ≢ [])

abbrev pub AllReady : List CheckConfig → Type 0
AllReady [] = Unit {0}
AllReady (c ∷ cs) = IsReady c × AllReady cs

-- No error is no promise; checks that are loaded are all ready.
abbrev pub LoadsReady : Loaded → Type 0
LoadsReady (broken e) = Unit {0}
LoadsReady (loaded cs) = AllReady cs

with_defaults-IsReady : (c : CheckConfig) → IsReady (with_defaults c)
unfolding with_defaults is_zero
with_defaults-IsReady c = elim (Bool-cases (is_zero c.timeout)) [
  | inl z ↦ (λ h. ground (arith, ap is_zero h, z), λ h. ground (arith, h))
  | inr n ↦ (λ h. ground (arith, ap is_zero h, n), λ h. ground (arith, h))
]

map-AllReady : (cs : List CheckConfig) → AllReady (map with_defaults cs)
map-AllReady [] = tt
map-AllReady (c ∷ cs) = (with_defaults-IsReady c, map-AllReady cs)

-- Whatever the files hold, every check that LoadChecks returns has a timeout other than 0 and a
-- schedule.
pub load_checks-LoadsReady :
    (p : Platform) (f : Files) (path : Str) → LoadsReady (load_checks p f path)
unfolding load_checks
load_checks-LoadsReady p f path = found (f.stat path)
  where
    ready : (l : Loaded) → LoadsReady (defaulted p f l)
    ready (broken e) = tt
    ready (loaded cs) = map-AllReady cs

    found : (s : Str ⊎ Bool) → LoadsReady (found_path p f path s)
    found (inl e) = tt
    found (inr true) = ready (load_checks_from_dir p f path)
    found (inr false) = ready (load_checks_from_file p f path)
