-- ===== src/Check/Ntp/Offset.antt =====
-- How near the offset that the NTP checker reports is to that of the clocks.
use technician.Common.{ℕ, ◌+◌, ◌-◌, ◌*◌, ◌^◌, ◌≤◌, ◌<◌, ◌≡◌, arith, nat_eq, str_eq}
use technician.Common.Int.{ℤ, pos, pos_part, neg_part}
use technician.Common.Duration.{
  sub_time, add64, sub_time-parts, add64-parts, sub64-parts, half-parts, Within,
}
use technician.Check.Ntp.{clock_offset, round_trip}

-- Twice the distance of `a` and `b` is at most `n`.
abbrev pub WithinHalf : ℕ → ℤ → ℤ → Type 0
WithinHalf n a b =
    (2 * (pos_part a + neg_part b) ≤ 2 * (pos_part b + neg_part a) + n)
    × (2 * (pos_part b + neg_part a) ≤ 2 * (pos_part a + neg_part b) + n)

-- The server's instant is the client's, moved by the offset of the clocks.
abbrev pub Shifted : ℤ → ℕ → ℕ → Type 0
Shifted theta client server = server + neg_part theta ≡ client + pos_part theta

eq_of_parts : (a b : ℤ) → pos_part a + neg_part b ≡ pos_part b + neg_part a → a ≡ b
eq_of_parts a b h = ground arith

module _ (theta : ℤ) (t1 arrived left t4 t2 t3 : ℕ) where
  -- If the packet reaches the server and leaves it at the client's instants `arrived` and `left`, between
  -- the send and the receipt, and the clocks are less than 2 ^ 61 nanoseconds apart, 73 years, as the
  -- two ends of the exchange are, then the delay of the round trip is what the packet spends on the
  -- way, and the offset is off by at most half of it and the half nanosecond that is cut off.
  pub clock_offset-WithinHalf :
      Shifted theta arrived t2
      → Shifted theta left t3
      → t1 ≤ arrived
      → arrived ≤ left
      → left ≤ t4
      → Within (2 ^ 61 - 1) theta
      → t4 < t1 + 2 ^ 61
      → (round_trip t1 t2 t3 t4 ≡ pos (arrived - t1 + (t4 - left)))
        × WithinHalf (arrived - t1 + (t4 - left) + 1) (clock_offset t1 t2 t3 t4) theta
  unfolding clock_offset round_trip
  clock_offset-WithinHalf h2 h3 a b c w d =
      let p21 = sub_time-parts t2 t1 (omega arith) (omega arith) in
      let p34 = sub_time-parts t3 t4 (omega arith) (omega arith) in
      let p41 = sub_time-parts t4 t1 (omega arith) (omega arith) in
      let p32 = sub_time-parts t3 t2 (omega arith) (omega arith) in
      let total = add64-parts (sub_time t2 t1) (sub_time t3 t4) p21.1 p34.1 in
      let delay = sub64-parts (sub_time t4 t1) (sub_time t3 t2) p41.1 p32.1 in
      let halves = half-parts (add64 (sub_time t2 t1) (sub_time t3 t4)) in
      (eq_of_parts _ _ (omega arith), omega arith)
