-- ===== src/Tests/Checkers.antt =====
-- The properties of the UDP, SMTP, NTP, gRPC, WebSocket and traceroute checkers at concrete inputs.
use technician.Common.{
  ltb, ℕ, zero, suc, ◌+◌, ◌-◌, ◌≡◌, refl, inl, inr, true, false, none, some, List, [], ◌∷◌, ◌++◌,
  arith, nat_eq, Str, str_eq,
}
use technician.Common.Int.{ℤ, pos}
use technician.Common.Float.{whole, of_ℤ}
use technician.Common.Text.{codes}
use technician.Config.Types.{CheckConfig}
use technician.Check.Udp.{timed_out, Socket}
use technician.Check.Udp
use technician.Check.Udp.Verdict.{success_of, udp_verdict, run-udp_verdict}
use technician.Check.Smtp.{Server}
use technician.Check.Ntp.{ntp_time_to_time, received_by_server, sent_by_server}
use technician.Check.Ntp
use technician.Check.Ntp.Offset.{WithinHalf}
use technician.Check.Ntp.Verdict.{run-offset}
use technician.Check.Grpc.{ConnKey, find_conn}
use technician.Check.Grpc.Connections.{Call, first_made, get_conns, or_made, get_conns-first_made}
use technician.Check.Websocket.{Peer, connected}
use technician.Check.Websocket
use technician.Check.Websocket.Verdict.{websocket_verdict, run-websocket_verdict}
use technician.Check.Traceroute.{MtrHub, exited, Tools}
use technician.Check.Report.{five_seconds, half_minute}
use technician.Tests.Data.{slow_check}

abbrev silent_socket : Socket
silent_socket = record {
  decode_hex = λ s. inr (0xff ∷ []);
  dial = λ timeout network addr. none;
  write = λ payload. none;
  read = λ size. timed_out;
  can_make = λ n. ltb n 281474976710656;
  elapsed = 9;
  rtt = 5;
}

-- A check that asks for a text and for no response.
abbrev udp_check : CheckConfig
udp_check = record slow_check {
  timeout = pos 0;
  udp = some (record {
    host = codes "192.0.2.7";
    port = pos 53;
    ip_version = codes "4";
    send = [];
    send_hex = codes "ff";
    expect_response = some false;
    expect_recv = codes "pong";
    max_response_bytes = pos 0;
  });
}

run-udp_verdict_example :
    success_of (Udp.run {F = ℕ} (λ s. s) 0 100 silent_socket udp_check none)
    ≡ udp_verdict silent_socket five_seconds udp_check.udp
run-udp_verdict_example = run-udp_verdict (λ s. s) 0 100 silent_socket udp_check none

abbrev mail_server : Server
mail_server = record {
  dial = λ timeout addr. none;
  greet = λ host. none;
  hello = λ name. none;
  advertises = true;
  start_tls = λ host skip. none;
  auth = λ user pass. some (codes "535");
  elapsed = 12;
}

abbrev mail_check : CheckConfig
mail_check = record slow_check {
  timeout = pos 0;
  smtp = some (record {
    host = codes "mx.example.org";
    port = pos 587;
    timeout = pos 0;
    start_tls = true;
    skip_tls = false;
    username = codes "probe";
    password = codes "secret";
  });
}

abbrev zeros : ℕ → Str
zeros zero = []
zeros (suc n) = 0 ∷ zeros n

-- A packet of stratum 2 whose instants are those of second 1000 in the NTP era.
abbrev packet : Str
packet = 0x24 ∷ 2 ∷ (zeros 32 ++ 3 ∷ 232 ∷ (zeros 6 ++ 3 ∷ 232 ∷ zeros 4))

-- The clocks agree, and the packet spends 40 nanoseconds on the way and 60 on the way back.
abbrev time_socket : Ntp.Socket
time_socket = record {
  dial = λ timeout addr. none;
  write = λ bytes. none;
  read = inr packet;
  sent_at = ntp_time_to_time 1000 0 - 40;
  received_at = ntp_time_to_time 1000 0 + 60;
}

abbrev time_check : CheckConfig
time_check = record slow_check {
  ntp = some (record { server = codes "ntp.example.org"; port = pos 123 });
}

run-offset_example :
    ((Ntp.run whole 100 time_socket time_check none).ntp_rtt ≡ pos 100)
    × ((offset : ℤ) × ((Ntp.run whole 100 time_socket time_check none).ntp_offset_ms
          ≡ whole.div (of_ℤ whole offset) (whole.of_ℕ 1000000))
        × WithinHalf 101 offset (pos 0))
unfolding ntp_time_to_time Ntp.run received_by_server sent_by_server Ntp.parse_packet
run-offset_example =
    run-offset whole 100 time_socket time_check none (pos 0) (ntp_time_to_time 1000 0)
      (ntp_time_to_time 1000 0) refl (omega arith) (omega arith) (omega arith) (omega arith)
      (omega arith) (omega arith) (omega arith)

abbrev service : Str → ConnKey
service host = record { host = host; tls = true; skip_tls = false }

-- The library refuses a first client, and then makes one for each of two hosts.
abbrev dials : List (Call ℕ)
dials =
    ((λ host creds. inl (codes "bad target")), service (codes "a"))
    ∷ ((λ host creds. inr 7), service (codes "a"))
    ∷ ((λ host creds. inr 8), service (codes "b"))
    ∷ ((λ host creds. inr 9), service (codes "a"))
    ∷ []

get_conns-first_made_example :
    find_conn (service (codes "a")) (get_conns dials [])
    ≡ or_made (find_conn (service (codes "a")) []) (first_made (service (codes "a")) dials)
get_conns-first_made_example = get_conns-first_made dials (service (codes "a")) []

abbrev echo_peer : Peer
echo_peer = record {
  parse_url = λ s. inr (record { scheme = codes "wss"; host = codes "example.org"; hostname = [] });
  new_config = λ location origin. none;
  canonical = λ name. name;
  dial = λ c. connected;
  send = λ text. none;
  receive = inr (codes "echo: hello");
  elapsed = 20;
  connect_time = 11;
  message_time = 6;
}

abbrev socket_check : CheckConfig
socket_check = record slow_check {
  timeout = pos 0;
  websocket = some (record {
    url = codes "wss://example.org/live";
    send = codes "hello";
    expect_recv = codes "hello";
    skip_tls = false;
    headers = [];
  });
}

run-websocket_verdict_example :
    (Websocket.run {F = ℕ} (λ s. s) 0 100 echo_peer socket_check none).success
    ≡ websocket_verdict echo_peer half_minute socket_check.websocket
run-websocket_verdict_example = run-websocket_verdict (λ s. s) 0 100 echo_peer socket_check none

abbrev two_hubs : List (MtrHub ℕ)
two_hubs =
    (record { host = codes "gw"; asn = pos 0; loss = 0; avg = 1 })
    ∷ (record { host = codes "192.0.2.9"; asn = pos 64500; loss = 5; avg = 14 })
    ∷ []

abbrev mtr_tools : Tools ℕ
mtr_tools = record {
  mtr = λ timeout args. exited (codes "start {}");
  unmarshal = λ json. inr two_hubs;
  quote = λ s. s;
  elapsed = 30;
}

abbrev route_check : CheckConfig
route_check = record slow_check {
  timeout = pos 0;
  traceroute = some (record { host = codes "example.org"; max_hops = pos 30; count = pos 3 });
}
