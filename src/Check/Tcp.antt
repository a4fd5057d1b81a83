-- ===== src/Check/Tcp.antt =====
-- internal/check/tcp.go: the TCP checker, of what the connection does.
pub mod Receive
use technician.Common.{
  ℕ, zero, suc, true, Option, none, some, List, [], ◌∷◌, ◌++◌, ltb, if◌then◌else◌, length, ◌==◌,
  nat_eq, Str, str_eq,
}
use technician.Common.Int.{ℤ, pos, leb_ℤ, int_eq}
use technician.Common.Text.{codes, contains, itoa, joined}
use technician.Config.Kind.{tcp}
use technician.Config.Origin.{Origin}
use technician.Config.Types.{CheckConfig, TcpCheckConfig}
use technician.Check.{Result, new_result}

-- The error of a read: the end of the stream, or another with its text.
pub data ReadError : Type 0 where
  eof : ReadError
  failed : Str → ReadError

-- What `conn.Read` gives: the bytes, at most 4096 of them, and the error.
pub record Read : Type 0 where
  pub bytes : Str
  pub error : Option ReadError

-- How the loop of the reads ends: with what is received, by its limit, or by an error; `unfinished`
-- is for a loop that has no rounds left.
pub data Outcome : Type 0 where
  stopped : Str → Outcome
  too_long : Outcome
  read_failed : Str → Outcome
  unfinished : Outcome

-- `maxRecvSize`
abbrev pub max_recv_size : ℕ
max_recv_size = 1048576

outcome_of : Option ReadError → Str → Option Outcome
outcome_of none received = none
outcome_of (some eof) received = some (stopped received)
outcome_of (some (failed e)) received = some (read_failed e)

-- one round after its read: how the loop ends, and `none` if it goes on
unfoldable pub judge_read : Str → Str → Option ReadError → Option Outcome
unfolding outcome_of
judge_read expected received e =
    if contains received expected
    then some (stopped received)
    else if ltb max_recv_size (length received)
    then some too_long
    else outcome_of e received

-- the loop, from read `k` on, with the rounds that are left
unfoldable pub receive_loop : (ℕ → Read) → Str → ℕ → ℕ → Str → Outcome
unfolding judge_read
receive_loop reads expected zero k received = unfinished
receive_loop reads expected (suc left) k received =
    elim (judge_read expected (received ++ (reads k).bytes) (reads k).error) [
      | some o ↦ o
      | none ↦ receive_loop reads expected left (suc k) (received ++ (reads k).bytes)
    ]

-- Each round that does not end the loop has read a byte, so that one more round than the limit is
-- enough.
unfoldable pub receive_all : (ℕ → Read) → Str → Outcome
unfolding receive_loop
receive_all reads expected = receive_loop reads expected (suc max_recv_size) 0 []

-- What the connection does: `none` is success. The times are those since the start, the start of the
-- dialling, and the start of the handshake.
pub record Connection : Type 0 where
  pub dial : Str → Str → Option Str
  pub handshake : Option Str
  pub write : Option Str
  pub before_read : ℕ
  pub reads : ℕ → Read
  pub elapsed : ℕ
  pub conn_time : ℕ
  pub tls_time : ℕ

tcp_network : Str → Str
tcp_network v =
    if v == codes "4" then codes "tcp4" else if v == codes "6" then codes "tcp6" else codes "tcp"

address_of : TcpCheckConfig → Str
address_of c = joined (c.host ∷ codes ":" ∷ itoa c.port ∷ [])

abbrev pub thirty_seconds : ℤ
thirty_seconds = pos 30000000000

abbrev pub timeout_of : CheckConfig → ℤ
timeout_of cfg = if cfg.timeout == pos 0 then thirty_seconds else cfg.timeout

-- `quote` is `%q`.
module _ {F : Type 0} (quote : Str → Str) where
  fail_with : ℕ → List Str → Result F → Result F
  fail_with elapsed message r = record r { duration = elapsed; error = joined message }

  succeed : ℕ → Result F → Result F
  succeed elapsed r = record r { duration = elapsed; success = true }

  finish_receive : TcpCheckConfig → ℕ → Outcome → Result F → Result F
  unfolding fail_with succeed address_of
  finish_receive c elapsed (stopped received) r =
      if contains received c.expect_recv
      then succeed elapsed r
      else fail_with elapsed
          (codes "expected "
            ∷ quote c.expect_recv
            ∷ codes " in response from "
            ∷ address_of c
            ∷ codes ", got "
            ∷ quote received
            ∷ [])
          r
  finish_receive c elapsed too_long r =
      fail_with elapsed
        (codes "response from "
          ∷ address_of c
          ∷ codes " exceeded "
          ∷ itoa (pos max_recv_size)
          ∷ codes " bytes without matching expected string"
          ∷ [])
        r
  finish_receive c elapsed (read_failed e) r =
      fail_with elapsed (codes "reading from " ∷ address_of c ∷ codes ": " ∷ e ∷ []) r
  finish_receive c elapsed unfinished r = r

  -- from the test of `ExpectRecv` on
  expect : CheckConfig → TcpCheckConfig → Connection → Result F → Result F
  unfolding finish_receive receive_all
  expect cfg c n r =
      if c.expect_recv == []
      then succeed n.elapsed r
      else if leb_ℤ (timeout_of cfg) (pos n.before_read)
      then fail_with n.elapsed (codes "timeout exceeded before reading from " ∷ address_of c ∷ []) r
      else finish_receive c n.elapsed (receive_all n.reads c.expect_recv) r

  written : Option Str → CheckConfig → TcpCheckConfig → Connection → Result F → Result F
  unfolding expect
  written (some e) cfg c n r =
      fail_with n.elapsed (codes "sending data to " ∷ address_of c ∷ codes ": " ∷ e ∷ []) r
  written none cfg c n r = expect cfg c n r

  secured : Option Str → CheckConfig → TcpCheckConfig → Connection → Result F → Result F
  unfolding written
  secured (some e) cfg c n r =
      fail_with n.elapsed (codes "TLS handshake with " ∷ address_of c ∷ codes ": " ∷ e ∷ []) r
  secured none cfg c n r = written (if c.send == [] then none else n.write) cfg c n r

  dialled : Option Str → CheckConfig → TcpCheckConfig → Connection → Result F → Result F
  unfolding secured
  dialled (some e) cfg c n r =
      fail_with n.elapsed (codes "connecting to " ∷ address_of c ∷ codes ": " ∷ e ∷ []) r
  dialled none cfg c n r =
      if c.tls
      then secured n.handshake cfg c n
          (record r { tcp_conn_duration = n.conn_time; tcp_tls_duration = n.tls_time })
      else secured none cfg c n (record r { tcp_conn_duration = n.conn_time })

  configured : Option TcpCheckConfig → CheckConfig → Connection → Result F → Result F
  unfolding dialled tcp_network
  configured none cfg n r = record r { error = codes "missing TCP check configuration" }
  configured (some c) cfg n r = dialled (n.dial (tcp_network c.ip_version) (address_of c)) cfg c n r

  -- `Run` at the instant `now`
  unfoldable pub run : F → ℕ → Connection → CheckConfig → Option Origin → Result F
  unfolding configured
  run zero_float now n cfg origin =
      configured cfg.tcp cfg n (new_result zero_float cfg.name tcp origin now)
