-- ===== src/Check/Udp/Verdict.antt =====
-- When a run of the UDP checker succeeds, fails or panics.
use technician.Common.{
  ℕ, zero, suc, ◌≡◌, refl, ap, ◌∙◌, ◌⊎◌, inl, inr, Bool, true, false, not, ◌&&◌, ◌||◌, Option, none,
  some, [], arith, nat_beq, if◌then◌else◌, Option-cases, ◌==◌, nat_eq, Str, str_eq,
}
use technician.Common.Int.{ℤ, pos, negsuc}
use technician.Common.Text.{contains}
use technician.Config.Origin.{Origin}
use technician.Config.Types.{CheckConfig, UdpCheckConfig}
use technician.Check.{Result}
use technician.Check.Report.{host_port, or_default, five_seconds, is_done}
use technician.Check.Udp.{
  Reply, answered, timed_out, read_failed, Socket, payload_of, udp_network, expects_response, made,
  buffer_size, judge_reply, receive, sent, dialled, prepared, configured, run,
}

-- An answer has the expected text; silence will do if no response is expected.
abbrev pub is_satisfied : UdpCheckConfig → Reply → Bool
is_satisfied c (answered received) = c.expect_recv == [] || contains received c.expect_recv
is_satisfied c timed_out = not (expects_response c)
is_satisfied c (read_failed e) = false

-- The payload is readable, the address is reached and the payload is sent.
abbrev is_sent : Socket → ℤ → UdpCheckConfig → Str ⊎ Str → Bool
is_sent s timeout c (inl e) = false
is_sent s timeout c (inr payload) =
    is_done (s.dial timeout (udp_network c.ip_version) (host_port c.host c.port))
    && is_done (s.write payload)

abbrev reads : UdpCheckConfig → Bool
reads c = expects_response c || not (c.expect_recv == [])

-- What is read into a buffer of the configured size, 4096 by default, if it can be made.
abbrev satisfied_by : Socket → UdpCheckConfig → ℤ → Option Bool
satisfied_by s c (pos n) =
    let size = if nat_beq n 0 then 4096 else n in
    if s.can_make size then some (is_satisfied c (s.read size)) else none
satisfied_by s c (negsuc n) = none

-- Whether a run succeeds, with `none` for a panic.
abbrev pub udp_verdict : Socket → ℤ → Option UdpCheckConfig → Option Bool
udp_verdict s timeout none = some false
udp_verdict s timeout (some c) =
    if is_sent s timeout c (payload_of s c)
    then (if reads c then satisfied_by s c c.max_response_bytes else some true)
    else some false

abbrev pub success_of : {F : Type 0} → Option (Result F) → Option Bool
success_of none = none
success_of (some r) = some r.success

module _ {F : Type 0} (quote : Str → Str) where
  judge_reply-success :
      (c : UdpCheckConfig) (s : Socket) (a : Reply) (r : Result F)
      → r.success ≡ false
      → (judge_reply quote c s a r).success ≡ is_satisfied c a
  unfolding judge_reply
  judge_reply-success c s (answered received) r e = ground arith
  judge_reply-success c s timed_out r e = ground arith
  judge_reply-success c s (read_failed x) r e = e

  made-success :
      (n : ℕ) (c : UdpCheckConfig) (s : Socket) (r : Result F)
      → r.success ≡ false
      → success_of (receive quote (made s n) c s r)
        ≡ (if s.can_make n then some (is_satisfied c (s.read n)) else none)
  unfolding receive made
  made-success n c s r e = ground (arith, judge_reply-success c s (s.read n) r e)

  receive-success :
      (m : ℤ) (c : UdpCheckConfig) (s : Socket) (r : Result F)
      → r.success ≡ false
      → success_of (receive quote (buffer_size s m) c s r) ≡ satisfied_by s c m
  unfolding receive buffer_size
  receive-success (pos zero) c s r e = made-success 4096 c s r e
  receive-success (pos (suc n)) c s r e = made-success (suc n) c s r e ∙ ground arith
  receive-success (negsuc n) c s r e = refl

  sent-success :
      (o : Option Str) (c : UdpCheckConfig) (s : Socket) (r : Result F)
      → r.success ≡ false
      → success_of (sent quote o c s r) ≡ (
          if is_done o
          then (if reads c then satisfied_by s c c.max_response_bytes else some true)
          else some false)
  unfolding sent
  sent-success (some x) c s r e = ap some e
  sent-success none c s r e = ground (arith, receive-success c.max_response_bytes c s r e)

  prepared-success :
      (p : Str ⊎ Str) (timeout : ℤ) (c : UdpCheckConfig) (s : Socket) (r : Result F)
      → r.success ≡ false
      → success_of (prepared quote p timeout c s r) ≡ (
          if is_sent s timeout c p
          then (if reads c then satisfied_by s c c.max_response_bytes else some true)
          else some false)
  unfolding prepared dialled
  prepared-success (inl x) timeout c s r e = ap some e
  prepared-success (inr payload) timeout c s r e =
      elim (Option-cases (s.dial timeout (udp_network c.ip_version) (host_port c.host c.port))) [
        | inl ok ↦ rw ok (sent-success (s.write payload) c s r e)
        | inr (x, bad) ↦ rw bad (ap some e)
      ]

  configured-success :
      (u : Option UdpCheckConfig) (timeout : ℤ) (s : Socket) (r : Result F)
      → r.success ≡ false
      → success_of (configured quote u timeout s r) ≡ udp_verdict s timeout u
  unfolding configured
  configured-success none timeout s r e = ap some e
  configured-success (some c) timeout s r e = prepared-success (payload_of s c) timeout c s r e

-- A run of the UDP checker succeeds exactly when the check is configured, its payload is readable, the
-- address is reached and the payload sent, and then no answer is asked for, or the read gives an
-- answer with the expected text, or times out where no response is expected, even if a text is. It
-- panics exactly when it comes to read and the size of the buffer, as configured or 4096 if that
-- is 0, is negative or too large for the runtime.
pub run-udp_verdict :
    {F : Type 0} (quote : Str → Str) (zero_float : F) (now : ℕ) (s : Socket) (cfg : CheckConfig)
    (origin : Option Origin)
    → success_of (run quote zero_float now s cfg origin)
      ≡ udp_verdict s (or_default five_seconds cfg.timeout) cfg.udp
unfolding run
run-udp_verdict quote zero_float now s cfg origin =
    configured-success quote cfg.udp (or_default five_seconds cfg.timeout) s _ refl
