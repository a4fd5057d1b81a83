-- ===== src/Common/Duration.antt =====
-- `time.Duration`, a signed number of 64 bits that counts nanoseconds, and the operations on it.
use technician.Common.{
  ℕ, zero, suc, ◌+◌, ◌-◌, ◌/◌, ◌%◌, ◌^◌, ◌≤◌, ◌<◌, ◌≡◌, arith, ltb, leb, if◌then◌else◌,
}
use technician.Common.Int.{ℤ, pos, negsuc, pos_part, neg_part, ◌+ℤ◌}

abbrev pub negated : ℕ → ℤ
negated zero = pos 0
negated (suc n) = negsuc n

-- a - b
abbrev pub sub_ℕ : ℕ → ℕ → ℤ
sub_ℕ a b = if leb b a then pos (a - b) else negsuc (b - a - 1)

-- `t.Sub(u)`: the difference, or the bound that it passes
unfoldable pub sub_time : ℕ → ℕ → ℤ
sub_time t u =
    if leb u t
    then (if ltb (t - u) (2 ^ 63) then pos (t - u) else pos (2 ^ 63 - 1))
    else if leb (u - t) (2 ^ 63)
    then negsuc (u - t - 1)
    else negsuc (2 ^ 63 - 1)

signed64 : ℕ → ℤ
signed64 w = if ltb w (2 ^ 63) then pos w else negsuc (2 ^ 64 - 1 - w)

-- the number that the low 64 bits stand for
unfoldable pub wrap64 : ℤ → ℤ
unfolding signed64
wrap64 (pos n) = signed64 (n % 2 ^ 64)
wrap64 (negsuc n) = signed64 (2 ^ 64 - 1 - n % 2 ^ 64)

-- a + b and a - b on int64
unfoldable pub add64 : ℤ → ℤ → ℤ
unfolding wrap64
add64 a b = wrap64 (a +ℤ b)

unfoldable pub sub64 : ℤ → ℤ → ℤ
unfolding wrap64
sub64 a b = wrap64 (sub_ℕ (pos_part a + neg_part b) (pos_part b + neg_part a))

-- d / 2, towards 0
unfoldable pub half : ℤ → ℤ
half (pos n) = pos (n / 2)
half (negsuc n) = negated (suc n / 2)

-- An integer that is within `n` of 0.
abbrev pub Within : ℕ → ℤ → Type 0
Within n d = (pos_part d ≤ n) × (neg_part d ≤ n)

wrap64-eq : (d : ℤ) → Within (2 ^ 63 - 1) d → wrap64 d ≡ d
unfolding wrap64 signed64
wrap64-eq (pos n) h = ground arith
wrap64-eq (negsuc n) h = ground arith

pub add64-pos : (m n : ℕ) → m + n < 2 ^ 63 → add64 (pos m) (pos n) ≡ pos (m + n)
unfolding add64
add64-pos m n h = wrap64-eq (pos (m + n)) (omega arith, omega arith)

-- What the operations are on instants and durations whose distances stay below 2 ^ 62.
pub sub_time-parts :
    (t u : ℕ)
    → t < u + 2 ^ 62
    → u < t + 2 ^ 62
    → (pos_part (sub_time t u) + u ≡ t + neg_part (sub_time t u))
      × Within (2 ^ 62 - 1) (sub_time t u)
unfolding sub_time
sub_time-parts t u h k = ground arith

+ℤ-parts :
    (a b : ℤ)
    → pos_part (a +ℤ b) + neg_part a + neg_part b ≡ neg_part (a +ℤ b) + pos_part a + pos_part b
+ℤ-parts (pos m) (pos n) = ground arith
+ℤ-parts (negsuc m) (negsuc n) = ground arith
+ℤ-parts (pos m) (negsuc n) = ground arith
+ℤ-parts (negsuc m) (pos n) = ground arith

+ℤ-Within : (a b : ℤ) → Within (2 ^ 62 - 1) a → Within (2 ^ 62 - 1) b → Within (2 ^ 63 - 1) (a +ℤ b)
+ℤ-Within (pos m) (pos n) h k = ground arith
+ℤ-Within (negsuc m) (negsuc n) h k = ground arith
+ℤ-Within (pos m) (negsuc n) h k = ground arith
+ℤ-Within (negsuc m) (pos n) h k = ground arith

pub add64-parts :
    (a b : ℤ)
    → Within (2 ^ 62 - 1) a
    → Within (2 ^ 62 - 1) b
    → pos_part (add64 a b) + neg_part a + neg_part b
      ≡ neg_part (add64 a b) + pos_part a + pos_part b
unfolding add64
add64-parts a b h k = rw (wrap64-eq (a +ℤ b) (+ℤ-Within a b h k)) (+ℤ-parts a b)

sub_ℕ-parts : (a b : ℕ) → pos_part (sub_ℕ a b) + b ≡ a + neg_part (sub_ℕ a b)
sub_ℕ-parts a b = ground arith

sub_ℕ-Within : (n a b : ℕ) → a ≤ n → b ≤ n → Within n (sub_ℕ a b)
sub_ℕ-Within n a b h k = ground arith

pub sub64-parts :
    (a b : ℤ)
    → Within (2 ^ 62 - 1) a
    → Within (2 ^ 62 - 1) b
    → pos_part (sub64 a b) + neg_part a + pos_part b
      ≡ neg_part (sub64 a b) + pos_part a + neg_part b
unfolding sub64
sub64-parts a b h k =
    rw
      (wrap64-eq (sub_ℕ (pos_part a + neg_part b) (pos_part b + neg_part a)) (
        sub_ℕ-Within (2 ^ 63 - 1) (pos_part a + neg_part b) (pos_part b + neg_part a) (omega arith)
          (omega arith)))
      (omega (arith, sub_ℕ-parts (pos_part a + neg_part b) (pos_part b + neg_part a)))

pub half-parts :
    (d : ℤ) → (pos_part (half d) ≡ pos_part d / 2) × (neg_part (half d) ≡ neg_part d / 2)
unfolding half
half-parts (pos n) = ground arith
half-parts (negsuc n) = ground arith
