-- ===== src/Check/Icmp.antt =====
-- internal/check/icmp.go: the ICMP checker, of what the sockets answer.
pub mod Bounds
pub mod Replies
use technician.Common.{
  ℕ, zero, suc, ◌+◌, ◌-◌, ◌/◌, ◌⊎◌, inl, inr, Bool, true, false, ◌&&◌, Option, none, some, List, [],
  ◌∷◌, ◌++◌, ltb, if◌then◌else◌, length, ◌==◌, nat_eq, Str, str_eq,
}
use technician.Common.Int.{ℤ, pos, pos_part, leb_ℤ, int_eq}
use technician.Common.Float.{Floats}
use technician.Common.Text.{codes, has_prefix, joined}
use technician.Config.Kind.{icmp}
use technician.Config.Origin.{Origin}
use technician.Config.Types.{CheckConfig, IcmpCheckConfig}
use technician.Check.{Result, new_result}

-- A packet that `ParseMessage` can read: an echo reply with its fields, or anything else; `at` is the
-- instant at which it is handled.
pub data Packet : Type 0 where
  malformed : Packet
  not_echo_reply : Packet
  echo : (id seq : ℤ) (data_bytes : Str) (instant : ℕ) → Packet

payload : Str
payload = codes "technician-check"

-- `payloadMatches`
payload_matches : Str → Str → Bool
payload_matches received expected = has_prefix received expected

-- Whether a packet is the reply to probe `seq`.
unfoldable pub is_reply : ℤ → ℤ → Packet → Bool
unfolding payload payload_matches
is_reply id seq malformed = false
is_reply id seq not_echo_reply = false
is_reply id seq (echo i s d instant) =
    if i == id && s == seq then true else s == seq && payload_matches d payload

pub instant_of : Packet → ℕ
instant_of (echo i s d instant) = instant
instant_of _ = 0

-- the loop of `sendPing` over the packets that arrive until the context is done or a read fails,
-- which the deadline brings about: the round-trip time, and `none` for an error
unfoldable pub await : ℤ → ℤ → ℕ → List Packet → Option ℕ
unfolding is_reply instant_of
await id seq start [] = none
await id seq start (p ∷ ps) =
    if is_reply id seq p then some (instant_of p - start) else await id seq start ps

-- What `sendPing` meets: the request cannot be sent, or it is sent at an instant and packets arrive.
pub data Exchange : Type 0 where
  unsent : Exchange
  sent_at : ℕ → List Packet → Exchange

-- `sendPing`
unfoldable pub send_ping : ℤ → ℤ → Exchange → Option ℕ
unfolding await
send_ping id seq unsent = none
send_ping id seq (sent_at start packets) = await id seq start packets

-- `probes seq` is what the exchange of probe `seq` meets, `done seq` whether the context is done before
-- it.
module _ (id : ℤ) (probes : ℕ → Exchange) (done : ℕ → Bool) where
  append_rtt : Option ℕ → List ℕ → List ℕ
  append_rtt none rtts = rtts
  append_rtt (some rtt) rtts = rtts ++ rtt ∷ []

  -- the loop over the probes, with the rounds that are left: `sent` and `rtts`
  unfoldable pub ping_loop : ℕ → ℕ → ℕ → List ℕ → ℕ × List ℕ
  unfolding append_rtt send_ping
  ping_loop zero seq sent rtts = (sent, rtts)
  ping_loop (suc left) seq sent rtts =
      let rest =
        ping_loop left (suc seq) (suc sent)
          (append_rtt (send_ping id (pos seq) (probes seq)) rtts) in
      if done seq then (sent, rtts) else rest

-- the loop over the round-trip times: the total, the least and the greatest
unfoldable pub rtt_stats : ℕ → ℕ → ℕ → List ℕ → ℕ × (ℕ × ℕ)
rtt_stats total low high [] = (total, (low, high))
rtt_stats total low high (rtt ∷ rtts) =
    rtt_stats (total + rtt) (if ltb rtt low then rtt else low) (if ltb high rtt then rtt else high)
      rtts

-- `count`, with its default
unfoldable pub probe_count : ℤ → ℕ
probe_count count = if leb_ℤ count (pos 0) then 3 else pos_part count

-- `ipNetwork`
ip_network : Str → Str
ip_network v =
    if v == codes "4" then codes "ip4" else if v == codes "6" then codes "ip6" else codes "ip"

-- The sockets: `ResolveIPAddr` gives an error's text or whether the address is an IPv6 one, and
-- `ListenPacket` an error's text or nothing.
pub record Sockets : Type 0 where
  pub resolve : Str → Str → Str ⊎ Bool
  pub listen : Str → Str → Option Str

module _ {F : Type 0} (fl : Floats F) where
  -- the fields that follow the loop
  unfoldable pub summary : ℕ → List ℕ → Result F → Result F
  unfolding rtt_stats
  summary sent [] r = record r {
    icmp_packets_sent = sent;
    icmp_packets_recv = 0;
    icmp_packet_loss =
        if ltb 0 sent
        then fl.mul (fl.div (fl.of_ℕ (sent - 0)) (fl.of_ℕ sent)) (fl.of_ℕ 100)
        else r.icmp_packet_loss;
  }
  summary sent (first ∷ more) r =
      let stats = rtt_stats 0 first first (first ∷ more) in
      record r {
        icmp_packets_sent = sent;
        icmp_packets_recv = length (first ∷ more);
        icmp_packet_loss =
            if ltb 0 sent
            then fl.mul (fl.div (fl.of_ℕ (sent - length (first ∷ more))) (fl.of_ℕ sent))
                (fl.of_ℕ 100)
            else r.icmp_packet_loss;
        icmp_min_rtt = stats.1.0;
        icmp_max_rtt = stats.1.1;
        icmp_avg_rtt = stats.0 / length (first ∷ more);
        success = true;
      }

  ping_all : IcmpCheckConfig → ℤ → (ℕ → Exchange) → (ℕ → Bool) → ℕ → Result F → Result F
  unfolding summary ping_loop probe_count
  ping_all c id probes done elapsed r =
      let out = ping_loop id probes done (probe_count c.count) 0 0 [] in
      summary out.0 out.1 (record r { duration = elapsed })

  -- the privileged socket, and else the unprivileged one
  open_socket : Sockets → Bool → Option Str
  open_socket s is_ipv6 =
      let address = if is_ipv6 then codes "::" else codes "0.0.0.0" in
      elim (s.listen (if is_ipv6 then codes "ip6:ipv6-icmp" else codes "ip4:icmp") address) [
        | none ↦ none
        | some e ↦ s.listen (if is_ipv6 then codes "udp6" else codes "udp4") address
      ]

  listened :
      Option Str → IcmpCheckConfig → ℤ → (ℕ → Exchange) → (ℕ → Bool) → ℕ → Result F → Result F
  unfolding ping_all
  listened (some e) c id probes done elapsed r = record r { error = codes "listen ICMP: " ++ e }
  listened none c id probes done elapsed r = ping_all c id probes done elapsed r

  resolved :
      Str ⊎ Bool
      → Sockets
      → IcmpCheckConfig
      → ℤ
      → (ℕ → Exchange)
      → (ℕ → Bool)
      → ℕ
      → Result F
      → Result F
  unfolding listened open_socket
  resolved (inl e) s c id probes done elapsed r = record r {
    error = joined (codes "resolving " ∷ c.host ∷ codes ": " ∷ e ∷ []);
  }
  resolved (inr is_ipv6) s c id probes done elapsed r =
      listened (open_socket s is_ipv6) c id probes done elapsed r

  configured :
      Option IcmpCheckConfig → Sockets → ℤ → (ℕ → Exchange) → (ℕ → Bool) → ℕ → Result F → Result F
  unfolding resolved ip_network
  configured none s id probes done elapsed r = record r {
    error = codes "missing ICMP check configuration";
  }
  configured (some c) s id probes done elapsed r =
      resolved (s.resolve (ip_network c.ip_version) c.host) s c id probes done elapsed r

  -- `Run` at the instant `now`, with the identifier that it draws
  unfoldable pub run :
      F → ℕ → ℕ → Sockets → ℤ → (ℕ → Exchange) → (ℕ → Bool) → CheckConfig → Option Origin → Result F
  unfolding configured
  run zero_float now elapsed s id probes done cfg origin =
      configured cfg.icmp s id probes done elapsed (new_result zero_float cfg.name icmp origin now)
