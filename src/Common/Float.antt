-- ===== src/Common/Float.antt =====
-- float64, of which nothing is assumed: the operations that the program uses, as a record.
use technician.Common.Tests.{ltb, nat_beq}
use Prim.Native.Nat.{ℕ, suc, ◌+◌, ◌-◌, ◌*◌, ◌/◌}
use mathlib.Core.Bool.{Bool}
use technician.Common.Int.{ℤ, pos, negsuc}

pub record Floats (F : Type 0) : Type 0 where
  -- `float64(n)`, and its inverse `int(x)` on what is not negative
  pub of_ℕ : ℕ → F
  pub to_ℕ : F → ℕ
  pub add : F → F → F
  pub sub : F → F → F
  pub mul : F → F → F
  pub div : F → F → F
  pub less : F → F → Bool
  pub equal : F → F → Bool

-- Whole numbers, with Go's integer division and a difference that stops at 0: an instance for runs.
abbrev pub whole : Floats ℕ
whole = record {
  of_ℕ = λ n. n;
  to_ℕ = λ n. n;
  add = λ a b. a + b;
  sub = λ a b. a - b;
  mul = λ a b. a * b;
  div = λ a b. a / b;
  less = ltb;
  equal = nat_beq;
}

-- the conversion of an integer
abbrev pub of_ℤ : {F : Type 0} → Floats F → ℤ → F
of_ℤ fl (pos n) = fl.of_ℕ n
of_ℤ fl (negsuc n) = fl.sub (fl.of_ℕ 0) (fl.of_ℕ (suc n))
