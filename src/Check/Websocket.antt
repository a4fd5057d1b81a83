-- ===== src/Check/Websocket.antt =====
-- internal/check/websocket.go: the WebSocket checker, of what the peer does.
pub mod Verdict
use technician.Common.{
  ℕ, ◌⊎◌, inl, inr, Bool, not, Option, none, some, [], ◌∷◌, ◌++◌, if◌then◌else◌, ◌==◌, nat_eq, Str,
  str_eq,
}
use technician.Common.Int.{ℤ}
use technician.Common.Maps.{Map}
use technician.Common.Text.{codes, contains, joined}
use technician.Config.Kind.{websocket}
use technician.Config.Origin.{Origin}
use technician.Config.Convert.{Url}
use technician.Config.Types.{CheckConfig, WebSocketCheckConfig}
use technician.Check.{Result, new_result}
use technician.Check.Http.Requests.{set_headers}
use technician.Check.Report.{or_default, half_minute, fails, succeeds}

-- What `websocket.DialConfig` is given.
pub record DialConfig : Type 0 where
  pub location : Str
  pub origin : Str
  pub headers : Map Str Str
  pub skip_tls : Bool
  pub timeout : ℤ

-- What the `select` takes: the end of the context, or the outcome of the dialling.
pub data Dialled : Type 0 where
  cancelled : Str → Dialled
  refused : Str → Dialled
  connected : Dialled

-- `url.Parse` and `websocket.NewConfig` with their errors, the canonical form of a header's name, the
-- dialling, the error of a send, and what is received, with an error on the left.
pub record Peer : Type 0 where
  pub parse_url : Str → Str ⊎ Url
  pub new_config : Str → Str → Option Str
  pub canonical : Str → Str
  pub dial : DialConfig → Dialled
  pub send : Str → Option Str
  pub receive : Str ⊎ Str
  pub elapsed : ℕ
  pub connect_time : ℕ
  pub message_time : ℕ

-- the `Origin` that the protocol wants, after the target's scheme
unfoldable pub origin_of : Url → Str
origin_of u =
    (if u.scheme == codes "wss" then codes "https" else codes "http") ++ codes "://" ++ u.host

unfoldable pub dial_config : Peer → ℤ → WebSocketCheckConfig → Url → DialConfig
unfolding origin_of
dial_config p timeout c u = record {
  location = c.url;
  origin = origin_of u;
  headers = set_headers p.canonical (λ user pass. []) c.headers [];
  skip_tls = c.skip_tls;
  timeout = timeout;
}

-- `quote` is `%q`.
module _ {F : Type 0} (quote : Str → Str) where
  judge_message : Str ⊎ Str → WebSocketCheckConfig → Peer → Result F → Result F
  judge_message (inl e) c p r =
      fails p.elapsed (codes "reading from " ∷ c.url ∷ codes ": " ∷ e ∷ [])
        (record r { ws_message_duration = p.message_time })
  judge_message (inr reply) c p r =
      let r' = record r { ws_message_duration = p.message_time } in
      if not (contains reply c.expect_recv)
      then fails p.elapsed
          (codes "expected "
            ∷ quote c.expect_recv
            ∷ codes " in response from "
            ∷ c.url
            ∷ codes ", got "
            ∷ quote reply
            ∷ [])
          r'
      else succeeds p.elapsed r'

  sent : Option Str → WebSocketCheckConfig → Peer → Result F → Result F
  unfolding judge_message
  sent (some e) c p r = fails p.elapsed (codes "sending to " ∷ c.url ∷ codes ": " ∷ e ∷ []) r
  sent none c p r =
      if not (c.expect_recv == [])
      then judge_message p.receive c p r
      else succeeds p.elapsed (record r { ws_message_duration = p.message_time })

  exchange : WebSocketCheckConfig → Peer → Result F → Result F
  unfolding sent
  exchange c p r = if not (c.send == []) then sent (p.send c.send) c p r else succeeds p.elapsed r

  dialled : Dialled → WebSocketCheckConfig → Peer → Result F → Result F
  unfolding exchange
  dialled (cancelled e) c p r =
      fails p.elapsed (codes "connecting to " ∷ c.url ∷ codes ": " ∷ e ∷ []) r
  dialled (refused e) c p r =
      fails p.elapsed (codes "connecting to " ∷ c.url ∷ codes ": " ∷ e ∷ [])
        (record r { ws_connect_duration = p.connect_time })
  dialled connected c p r = exchange c p (record r { ws_connect_duration = p.connect_time })

  built : Option Str → Url → ℤ → WebSocketCheckConfig → Peer → Result F → Result F
  unfolding dialled dial_config
  built (some e) u timeout c p r = record r { error = codes "building WebSocket config: " ++ e }
  built none u timeout c p r = dialled (p.dial (dial_config p timeout c u)) c p r

  parsed : Str ⊎ Url → ℤ → WebSocketCheckConfig → Peer → Result F → Result F
  unfolding built origin_of
  parsed (inl e) timeout c p r = record r {
    error = joined (codes "invalid WebSocket URL " ∷ quote c.url ∷ codes ": " ∷ e ∷ []);
  }
  parsed (inr u) timeout c p r = built (p.new_config c.url (origin_of u)) u timeout c p r

  configured : Option WebSocketCheckConfig → ℤ → Peer → Result F → Result F
  unfolding parsed
  configured none timeout p r = record r { error = codes "missing WebSocket check configuration" }
  configured (some c) timeout p r = parsed (p.parse_url c.url) timeout c p r

  -- `Run` at the instant `now`
  unfoldable pub run : F → ℕ → Peer → CheckConfig → Option Origin → Result F
  unfolding configured
  run zero_float now p cfg origin =
      configured cfg.websocket (or_default half_minute cfg.timeout) p
        (new_result zero_float cfg.name websocket origin now)
