-- ===== src/Check/Udp.antt =====
-- internal/check/udp.go: the UDP checker, of what the socket does.
pub mod Verdict
use technician.Common.{
  ℕ, zero, suc, ◌⊎◌, inl, inr, Bool, true, not, ◌&&◌, Option, none, some, [], ◌∷◌, ◌++◌,
  if◌then◌else◌, length, ◌==◌, nat_eq, Str, str_eq,
}
use technician.Common.Int.{ℤ, pos, negsuc}
use technician.Common.Text.{codes, contains}
use technician.Config.Kind.{udp}
use technician.Config.Origin.{Origin}
use technician.Config.Types.{CheckConfig, UdpCheckConfig}
use technician.Check.{Result, new_result}
use technician.Check.Report.{host_port, or_default, five_seconds, fails, succeeds}

-- What a read of the socket gives: the bytes that it puts into the buffer, or an error, which is a
-- timeout or has a text.
pub data Reply : Type 0 where
  answered : Str → Reply
  timed_out : Reply
  read_failed : Str → Reply

-- `hex.DecodeString` with its error on the left, and the socket: the error of the dialling at a
-- timeout, a network and an address, that of the write of a payload, and the read into a buffer of
-- some size; `can_make` is whether the runtime makes a slice of so many bytes. The times are those since the start and since the send.
pub record Socket : Type 0 where
  pub decode_hex : Str → Str ⊎ Str
  pub dial : ℤ → Str → Str → Option Str
  pub write : Str → Option Str
  pub read : ℕ → Reply
  pub can_make : ℕ → Bool
  pub elapsed : ℕ
  pub rtt : ℕ

-- the `switch` that determines the payload, with an error on the left
unfoldable pub payload_of : Socket → UdpCheckConfig → Str ⊎ Str
payload_of s c =
    if not (c.send_hex == [])
    then elim (s.decode_hex c.send_hex) [
      | inl e ↦ inl (codes "invalid send_hex: " ++ e)
      | inr payload ↦ inr payload
    ]
    else if not (c.send == [])
    then inr c.send
    else inl (codes "either send or send_hex must be specified")

unfoldable pub udp_network : Str → Str
udp_network v =
    if v == codes "4" then codes "udp4" else if v == codes "6" then codes "udp6" else codes "udp"

abbrev pub expects_response : UdpCheckConfig → Bool
expects_response c = elim c.expect_response [ none ↦ true | some b ↦ b ]

-- the size that `make` accepts, with `none` for its panic
made : Socket → ℕ → Option ℕ
made s n = if s.can_make n then some n else none

-- the size of the buffer; `make` panics on a negative one, and on one that is too large
unfoldable pub buffer_size : Socket → ℤ → Option ℕ
unfolding made
buffer_size s (pos zero) = made s 4096
buffer_size s (pos (suc n)) = made s (suc n)
buffer_size s (negsuc n) = none

-- `quote` is `%q`. `none` stands for a panic.
module _ {F : Type 0} (quote : Str → Str) where
  unfoldable pub judge_reply : UdpCheckConfig → Socket → Reply → Result F → Result F
  judge_reply c s (answered received) r =
      let r' = record r { udp_rtt = s.rtt; udp_response_bytes = length received } in
      if not (c.expect_recv == []) && not (contains received c.expect_recv)
      then fails s.elapsed
          (codes "expected "
            ∷ quote c.expect_recv
            ∷ codes " in response from "
            ∷ host_port c.host c.port
            ∷ codes ", got "
            ∷ quote received
            ∷ [])
          r'
      else succeeds s.elapsed r'
  judge_reply c s timed_out r =
      if expects_response c
      then fails s.elapsed
          (codes "timeout waiting for response from " ∷ host_port c.host c.port ∷ []) r
      else succeeds s.elapsed r
  judge_reply c s (read_failed e) r =
      fails s.elapsed (codes "reading from " ∷ host_port c.host c.port ∷ codes ": " ∷ e ∷ []) r

  receive : Option ℕ → UdpCheckConfig → Socket → Result F → Option (Result F)
  unfolding judge_reply
  receive none c s r = none
  receive (some size) c s r = some (judge_reply c s (s.read size) r)

  sent : Option Str → UdpCheckConfig → Socket → Result F → Option (Result F)
  unfolding receive buffer_size
  sent (some e) c s r =
      some (fails s.elapsed (codes "sending to " ∷ host_port c.host c.port ∷ codes ": " ∷ e ∷ []) r)
  sent none c s r =
      if not (expects_response c) && c.expect_recv == []
      then some (succeeds s.elapsed r)
      else receive (buffer_size s c.max_response_bytes) c s r

  dialled : Option Str → Str → UdpCheckConfig → Socket → Result F → Option (Result F)
  unfolding sent
  dialled (some e) payload c s r =
      some
        (fails s.elapsed (codes "UDP dial to " ∷ host_port c.host c.port ∷ codes ": " ∷ e ∷ []) r)
  dialled none payload c s r = sent (s.write payload) c s r

  prepared : Str ⊎ Str → ℤ → UdpCheckConfig → Socket → Result F → Option (Result F)
  unfolding dialled udp_network
  prepared (inl e) timeout c s r = some (record r { error = e })
  prepared (inr payload) timeout c s r =
      dialled (s.dial timeout (udp_network c.ip_version) (host_port c.host c.port)) payload c s r

  configured : Option UdpCheckConfig → ℤ → Socket → Result F → Option (Result F)
  unfolding prepared payload_of
  configured none timeout s r = some (record r { error = codes "missing UDP check configuration" })
  configured (some c) timeout s r = prepared (payload_of s c) timeout c s r

  -- `Run` at the instant `now`
  unfoldable pub run : F → ℕ → Socket → CheckConfig → Option Origin → Option (Result F)
  unfolding configured
  run zero_float now s cfg origin =
      configured cfg.udp (or_default five_seconds cfg.timeout) s
        (new_result zero_float cfg.name udp origin now)
