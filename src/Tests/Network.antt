-- ===== src/Tests/Network.antt =====
-- The properties of the TCP, TLS, DNS and domain expiry checkers at concrete inputs.
use technician.Common.{ℕ, zero, suc, true, none, some, [], ◌∷◌, arith, nat_eq, str_eq}
use technician.Common.Int.{pos}
use technician.Common.Text.{codes}
use technician.Config.Types.{CheckConfig}
use technician.Check.Tcp.{Read, eof, receive_all}
use technician.Check.Tcp.Receive.{Ends, IsProductive, receive_all-Ends}
use technician.Check.Tls.{Certificate, Network}
use technician.Tests.Data.{slow_check, date_text}

-- A greeting in two parts, then the end of the stream.
abbrev greeting : ℕ → Read
greeting zero = record { bytes = codes "22"; error = none }
greeting (suc zero) = record { bytes = codes "0 ready"; error = none }
greeting (suc (suc k)) = record { bytes = []; error = some eof }

greeting-IsProductive : IsProductive greeting (codes "220")
greeting-IsProductive zero h = omega arith
greeting-IsProductive (suc zero) h = omega arith
greeting-IsProductive (suc (suc k)) h = absurd (ground arith)

receive_all-Ends_example : Ends greeting (codes "220") (receive_all greeting (codes "220"))
receive_all-Ends_example = receive_all-Ends greeting (codes "220") greeting-IsProductive

abbrev a_leaf : Certificate
a_leaf = record {
  subject = codes "example.org";
  issuer = codes "ca";
  dns_names = [];
  not_before = 100;
  not_after = 900000000000000;
}

abbrev a_host : Network
a_host = record {
  split_host_port = λ host. some host;
  join_host_port = λ host port. host;
  verify = λ chain name. true;
  dial = λ host. none;
  handshake = λ host. none;
  presented = a_leaf ∷ [];
  format_date = date_text;
}

abbrev tls_check : CheckConfig
tls_check = record slow_check {
  tls = some (record {
    host = codes "example.org:443";
    check_expiry = true;
    warn_days = pos 30;
    critical_days = pos 7;
  });
}
