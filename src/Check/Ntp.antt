-- ===== src/Check/Ntp.antt =====
-- internal/check/ntp.go: the NTP checker, of the packet that a server answers.
pub mod Offset
pub mod Verdict
use technician.Common.{
  ℕ, zero, suc, ◌+◌, ◌-◌, ◌*◌, ◌/◌, ◌^◌, ◌⊎◌, inl, inr, true, Option, none, some, List, [], ◌∷◌,
  ◌++◌, ltb, nat_beq, if◌then◌else◌, length, get_elem?, nat_eq, Str, str_eq,
}
use technician.Common.Int.{ℤ}
use technician.Common.Duration.{sub_time, add64, sub64, half}
use technician.Common.Float.{Floats, of_ℤ}
use technician.Common.Text.{codes, decimal, joined}
use technician.Config.Kind.{ntp}
use technician.Config.Origin.{Origin}
use technician.Config.Types.{CheckConfig, NtpCheckConfig}
use technician.Check.{Result, new_result}
use technician.Check.Report.{host_port, or_default, five_seconds}

-- The fields of `ntpPacket` that are used.
pub record NtpPacket : Type 0 where
  pub li_vn_mode : ℕ
  pub stratum : ℕ
  pub rx_time_sec : ℕ
  pub rx_time_frac : ℕ
  pub tx_time_sec : ℕ
  pub tx_time_frac : ℕ

-- What the socket does: the error of the dialling at a timeout and an address, that of the write, and
-- the bytes that are read into the buffer, with an error on the left; and the instants of the client's
-- clock before the write and after the read.
pub record Socket : Type 0 where
  pub dial : ℤ → Str → Option Str
  pub write : Str → Option Str
  pub read : Str ⊎ Str
  pub sent_at : ℕ
  pub received_at : ℕ

-- the buffer at an index; it is filled with 0 past what is read
abbrev pub byte_at : Str → ℕ → ℕ
byte_at s i = elim (get_elem? s i) [ none ↦ 0 | some b ↦ b ]

-- `binary.BigEndian.Uint32(resp[i:])`
unfoldable pub uint32_at : Str → ℕ → ℕ
uint32_at s i =
    byte_at s i * 16777216 + byte_at s (i + 1) * 65536 + byte_at s (i + 2) * 256 + byte_at s (i + 3)

-- the request: 48 bytes, of which the first says version 4 and client
abbrev pub zeros : ℕ → Str
zeros zero = []
zeros (suc n) = 0 ∷ zeros n

abbrev pub request : Str
request = 0x23 ∷ zeros 47

unfoldable pub parse_packet : Str → NtpPacket
unfolding uint32_at
parse_packet s = record {
  li_vn_mode = byte_at s 0;
  stratum = byte_at s 1;
  rx_time_sec = uint32_at s 32;
  rx_time_frac = uint32_at s 36;
  tx_time_sec = uint32_at s 40;
  tx_time_frac = uint32_at s 44;
}

-- `ntpTimeToTime`: NTP counts from 1900, and instants here from the year 1
unfoldable pub ntp_time_to_time : ℕ → ℕ → ℕ
ntp_time_to_time sec frac = (59926608000 + sec) * 1000000000 + frac * 1000000000 / 2 ^ 32

unfoldable pub received_by_server : NtpPacket → ℕ
unfolding ntp_time_to_time
received_by_server k = ntp_time_to_time k.rx_time_sec k.rx_time_frac

unfoldable pub sent_by_server : NtpPacket → ℕ
unfolding ntp_time_to_time
sent_by_server k = ntp_time_to_time k.tx_time_sec k.tx_time_frac

-- the offset of the clocks and the delay of the round trip, from the four instants
unfoldable pub clock_offset : ℕ → ℕ → ℕ → ℕ → ℤ
clock_offset t1 t2 t3 t4 = half (add64 (sub_time t2 t1) (sub_time t3 t4))

unfoldable pub round_trip : ℕ → ℕ → ℕ → ℕ → ℤ
round_trip t1 t2 t3 t4 = sub64 (sub_time t4 t1) (sub_time t3 t2)

module _ {F : Type 0} (fl : Floats F) where
  -- The duration is `time.Since(t1)`, which is not negative.
  abbrev fails_after : Socket → List Str → Result F → Result F
  fails_after s message r = record r {
    duration = s.received_at - s.sent_at;
    error = joined message;
  }

  judge_packet : Socket → NtpPacket → Result F → Result F
  unfolding clock_offset round_trip received_by_server sent_by_server
  judge_packet s k r =
      if nat_beq (k.li_vn_mode / 64) 3
      then fails_after s (codes "NTP server is unsynchronized (LI=3)" ∷ []) r
      else if nat_beq k.stratum 0
      then fails_after s (codes "NTP kiss-of-death received (stratum 0)" ∷ []) r
      else record r {
        duration = s.received_at - s.sent_at;
        ntp_offset_ms =
            fl.div
              (of_ℤ fl
                (clock_offset s.sent_at (received_by_server k) (sent_by_server k) s.received_at))
              (fl.of_ℕ 1000000);
        ntp_stratum = k.stratum;
        ntp_rtt = round_trip s.sent_at (received_by_server k) (sent_by_server k) s.received_at;
        success = true;
      }

  answered : Str ⊎ Str → Socket → Result F → Result F
  unfolding judge_packet parse_packet
  answered (inl e) s r = fails_after s (codes "NTP read failed: " ∷ e ∷ []) r
  answered (inr resp) s r =
      if ltb (length resp) 48
      then fails_after s
          (codes "NTP response too short: " ∷ decimal (length resp) ∷ codes " bytes" ∷ []) r
      else judge_packet s (parse_packet resp) r

  sent : Option Str → Socket → Result F → Result F
  unfolding answered
  sent (some e) s r = fails_after s (codes "NTP write failed: " ∷ e ∷ []) r
  sent none s r = answered s.read s r

  dialled : Option Str → Socket → Result F → Result F
  unfolding sent
  dialled (some e) s r = record r { error = codes "NTP dial failed: " ++ e }
  dialled none s r = sent (s.write request) s r

  configured : Option NtpCheckConfig → ℤ → Socket → Result F → Result F
  unfolding dialled
  configured none timeout s r = record r { error = codes "missing NTP check configuration" }
  configured (some c) timeout s r = dialled (s.dial timeout (host_port c.server c.port)) s r

  -- `Run` at the instant `now`
  unfoldable pub run : ℕ → Socket → CheckConfig → Option Origin → Result F
  unfolding configured
  run now s cfg origin =
      configured cfg.ntp (or_default five_seconds cfg.timeout) s
        (new_result (fl.of_ℕ 0) cfg.name ntp origin now)
