-- ===== src/Common/Text/Decimal.antt =====
-- Decimal numerals are read back, and hold digits only.
use Prim.Native.Nat.{ℕ, zero, suc, ◌+◌, ◌-◌, ◌*◌, ◌%◌, ◌/◌, ◌<◌}
use technician.Common.Tests.{Bool-cases, ltb, ltb→lt}
use technician.Common.Keys.{Str}
use technician.Common.Text.{emit, decimal}
use technician.Common.Text.Split.{Free}
use mathlib.Core.Path.{◌≡◌, sym, ap, ◌∙◌}
use mathlib.Core.Logic.{inl, inr}
use mathlib.Core.List.{[], ◌∷◌}
use native.Mathlib.Omega.{arith}

value_from : ℕ → Str → ℕ
value_from a [] = a
value_from a (c ∷ s) = value_from (a * 10 + (c - b'0')) s

value_from-emit : (f n : ℕ) (out : Str) → n < f → value_from 0 (emit f n out) ≡ value_from n out
unfolding emit value_from
value_from-emit zero n out h = absurd (omega arith)
value_from-emit (suc f) n out h = elim (Bool-cases (ltb n 10)) [
  | inl small ↦ rw small (ap (λ a. value_from a out) (omega (arith, ltb→lt n 10 small)))
  | inr large ↦
      rw large
        (value_from-emit f (n / 10) _ (ground arith) ∙ ap (λ a. value_from a out) (omega arith))
]

emit-Free : (c f n : ℕ) (out : Str) → b'9' < c → Free c out → Free c (emit f n out)
unfolding emit
emit-Free c zero n out h k = k
emit-Free c (suc f) n out h k = elim (Bool-cases (ltb n 10)) [
  | inl small ↦ rw small (digit, k)
  | inr large ↦ rw large (emit-Free c f (n / 10) _ h (digit, k))
]
  where
    digit : ¬ (b'0' + n % 10 ≡ c)
    digit = omega arith

-- A numeral holds no colon.
pub decimal-Free : (n : ℕ) → Free b':' (decimal n)
unfolding decimal
decimal-Free n = emit-Free b':' (suc n) n [] (omega arith) tt

-- Different numbers have different numerals.
pub decimal-injective : (m n : ℕ) → decimal m ≡ decimal n → m ≡ n
unfolding decimal value_from
decimal-injective m n e =
    sym (value_from-emit (suc m) m [] (omega arith))
    ∙ ap (value_from 0) e
    ∙ value_from-emit (suc n) n [] (omega arith)
