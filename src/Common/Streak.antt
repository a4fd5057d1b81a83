-- ===== src/Common/Streak.antt =====
-- Runs of equal outcomes at the end of a sequence.
use technician.Common.Tests.{if◌then◌else◌}
use technician.Common.Lists.{every, length}
use Prim.Native.Nat.{ℕ, suc}
use mathlib.Core.Path.{◌≡◌, refl}
use mathlib.Core.Bool.{Bool, true, ◌&&◌}
use mathlib.Core.List.{List, [], ◌∷◌, ◌++◌}
use native.Mathlib.Omega.{arith}

-- How many elements of the longest suffix in which all are true.
abbrev pub trailing : List Bool → ℕ
trailing [] = 0
trailing (b ∷ bs) = if every (λ x. x) (b ∷ bs) then suc (trailing bs) else trailing bs

pub every-trailing : (bs : List Bool) → every (λ x. x) bs ≡ true → trailing bs ≡ length bs
every-trailing [] h = refl
every-trailing (b ∷ bs) h = ground (arith, every-trailing bs)

every-snoc : (bs : List Bool) (b : Bool) → every (λ x. x) (bs ++ b ∷ []) ≡ (every (λ x. x) bs && b)
every-snoc [] b = ground arith
every-snoc (c ∷ bs) b = ground (arith, every-snoc bs b)

pub trailing-snoc :
    (bs : List Bool) (b : Bool) → trailing (bs ++ b ∷ []) ≡ (if b then suc (trailing bs) else 0)
trailing-snoc [] b = ground arith
trailing-snoc (c ∷ bs) b = ground (arith, trailing-snoc bs b, every-snoc bs b, every-trailing bs)
