-- ===== src/Check/Ntp/Verdict.antt =====
-- When a run of the NTP checker succeeds, and what it then reports of the clocks.
use technician.Common.{
  ℕ, ◌+◌, ◌-◌, ◌/◌, ◌^◌, ◌≤◌, ◌<◌, ◌≡◌, refl, ◌∙◌, ◌⊎◌, inl, inr, Bool, true, false, not, ◌&&◌,
  Option, none, some, [], arith, leb, nat_beq, length, nat_eq, Str, str_eq,
}
use technician.Common.Int.{ℤ, pos}
use technician.Common.Duration.{Within}
use technician.Common.Float.{Floats, of_ℤ}
use technician.Config.Origin.{Origin}
use technician.Config.Types.{CheckConfig, NtpCheckConfig}
use technician.Check.{Result}
use technician.Check.Report.{host_port, or_default, five_seconds, is_done}
use technician.Check.Ntp.{
  NtpPacket, Socket, byte_at, request, parse_packet, received_by_server, sent_by_server,
  clock_offset, round_trip, judge_packet, answered, sent, dialled, configured, run,
}
use technician.Check.Ntp.Offset.{WithinHalf, Shifted, clock_offset-WithinHalf}

-- The answer is a whole packet of a server that is synchronized and tells no kiss of death.
abbrev pub is_usable : Str ⊎ Str → Bool
is_usable (inl e) = false
is_usable (inr resp) =
    leb 48 (length resp)
    && not (nat_beq (byte_at resp 0 / 64) 3)
    && not (nat_beq (byte_at resp 1) 0)

abbrev pub ntp_verdict : Socket → ℤ → Option NtpCheckConfig → Bool
ntp_verdict s timeout none = false
ntp_verdict s timeout (some c) =
    is_done (s.dial timeout (host_port c.server c.port))
    && is_done (s.write request)
    && is_usable s.read

-- The packet of an answer.
abbrev pub packet_of : Str ⊎ Str → NtpPacket
packet_of (inl e) = parse_packet []
packet_of (inr resp) = parse_packet resp

-- What a run that succeeds reports of the exchange.
abbrev Reports : {F : Type 0} → Floats F → Socket → NtpPacket → Result F → Type 0
Reports fl s k r =
    (r.ntp_offset_ms
      ≡ fl.div
          (of_ℤ fl (clock_offset s.sent_at (received_by_server k) (sent_by_server k) s.received_at))
          (fl.of_ℕ 1000000))
    × (r.ntp_rtt ≡ round_trip s.sent_at (received_by_server k) (sent_by_server k) s.received_at)

module _ {F : Type 0} (fl : Floats F) where
  answered-success :
      (a : Str ⊎ Str) (s : Socket) (r : Result F)
      → r.success ≡ false
      → (answered fl a s r).success ≡ is_usable a
  unfolding answered judge_packet parse_packet
  answered-success (inl x) s r e = e
  answered-success (inr resp) s r e = ground arith

  answered-Reports :
      (a : Str ⊎ Str) (s : Socket) (r : Result F)
      → r.success ≡ false
      → (answered fl a s r).success ≡ true
      → Reports fl s (packet_of a) (answered fl a s r)
  unfolding answered judge_packet
  answered-Reports (inl x) s r e h = cc
  answered-Reports (inr resp) s r e h = ground arith

  configured-success :
      (o : Option NtpCheckConfig) (timeout : ℤ) (s : Socket) (r : Result F)
      → r.success ≡ false
      → (configured fl o timeout s r).success ≡ ntp_verdict s timeout o
  unfolding configured dialled sent
  configured-success none timeout s r e = e
  configured-success (some c) timeout s r e = ground (arith, answered-success s.read s r e)

  sent-Reports :
      (o : Option Str) (s : Socket) (r : Result F)
      → r.success ≡ false
      → (sent fl o s r).success ≡ true
      → Reports fl s (packet_of s.read) (sent fl o s r)
  unfolding sent
  sent-Reports (some x) s r e h = cc
  sent-Reports none s r e h = answered-Reports s.read s r e h

  dialled-Reports :
      (o : Option Str) (s : Socket) (r : Result F)
      → r.success ≡ false
      → (dialled fl o s r).success ≡ true
      → Reports fl s (packet_of s.read) (dialled fl o s r)
  unfolding dialled
  dialled-Reports (some x) s r e h = cc
  dialled-Reports none s r e h = sent-Reports (s.write request) s r e h

  configured-Reports :
      (o : Option NtpCheckConfig) (timeout : ℤ) (s : Socket) (r : Result F)
      → r.success ≡ false
      → (configured fl o timeout s r).success ≡ true
      → Reports fl s (packet_of s.read) (configured fl o timeout s r)
  unfolding configured
  configured-Reports none timeout s r e h = cc
  configured-Reports (some c) timeout s r e h =
      dialled-Reports (s.dial timeout (host_port c.server c.port)) s r e h

-- A run of the NTP checker succeeds exactly when the check is configured, the server is reached, the
-- request is sent, and the answer has at least 48 bytes, of a server that does not call itself
-- unsynchronized and has a stratum other than 0.
pub run-ntp_verdict :
    {F : Type 0} (fl : Floats F) (now : ℕ) (s : Socket) (cfg : CheckConfig) (origin : Option Origin)
    → (run fl now s cfg origin).success
      ≡ ntp_verdict s (or_default five_seconds cfg.timeout) cfg.ntp
unfolding run
run-ntp_verdict fl now s cfg origin =
    configured-success fl cfg.ntp (or_default five_seconds cfg.timeout) s _ refl

-- When a run succeeds, the packet reached the server and left it at the client's instants `arrived` and
-- `left`, between the send and the receipt, the server's clock stamped both with a time `theta` more
-- than the client's, less where `theta` is negative, and both `theta` and the exchange are below 2 ^ 61 nanoseconds, 73 years, then the
-- reported delay is what the packet spent on the way, and the reported offset is `theta` up to half of
-- that delay and the half nanosecond that is cut off: it is positive where the server is ahead.
pub run-offset :
    {F : Type 0} (fl : Floats F) (now : ℕ) (s : Socket) (cfg : CheckConfig) (origin : Option Origin)
    (theta : ℤ) (arrived left : ℕ)
    → (run fl now s cfg origin).success ≡ true
    → Shifted theta arrived (received_by_server (packet_of s.read))
    → Shifted theta left (sent_by_server (packet_of s.read))
    → s.sent_at ≤ arrived
    → arrived ≤ left
    → left ≤ s.received_at
    → Within (2 ^ 61 - 1) theta
    → s.received_at < s.sent_at + 2 ^ 61
    → ((run fl now s cfg origin).ntp_rtt ≡ pos (arrived - s.sent_at + (s.received_at - left)))
      × ((offset : ℤ) × ((run fl now s cfg origin).ntp_offset_ms
            ≡ fl.div (of_ℤ fl offset) (fl.of_ℕ 1000000))
          × WithinHalf (arrived - s.sent_at + (s.received_at - left) + 1) offset theta)
unfolding run
run-offset fl now s cfg origin theta arrived left ok h2 h3 a b c w d =
    let k = packet_of s.read in
    let t2 = received_by_server k in
    let t3 = sent_by_server k in
    let told = configured-Reports fl cfg.ntp (or_default five_seconds cfg.timeout) s _ refl ok in
    let near =
      clock_offset-WithinHalf theta s.sent_at arrived left s.received_at t2 t3 h2 h3 a b c w d in
    (told.1 ∙ near.0, (clock_offset s.sent_at t2 t3 s.received_at, told.0, near.1))
