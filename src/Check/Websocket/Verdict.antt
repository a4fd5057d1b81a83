-- ===== src/Check/Websocket/Verdict.antt =====
-- When a run of the WebSocket checker succeeds.
use technician.Common.{
  ℕ, ◌≡◌, refl, ◌⊎◌, inl, inr, Bool, true, false, ◌&&◌, ◌||◌, Option, none, some, [], arith,
  Option-cases, ◌==◌, nat_eq, Str, str_eq,
}
use technician.Common.Int.{ℤ}
use technician.Common.Text.{contains}
use technician.Config.Origin.{Origin}
use technician.Config.Convert.{Url}
use technician.Config.Types.{CheckConfig, WebSocketCheckConfig}
use technician.Check.{Result}
use technician.Check.Report.{or_default, half_minute, is_done}
use technician.Check.Websocket.{
  cancelled, refused, connected, origin_of, dial_config, judge_message, sent, exchange, dialled,
  built, parsed, configured, run, Dialled, Peer,
}

-- The peer is connected to.
abbrev pub is_connected : Dialled → Bool
is_connected connected = true
is_connected _ = false

-- The message that is received has the expected text.
abbrev pub has_text : WebSocketCheckConfig → Str ⊎ Str → Bool
has_text c (inl e) = false
has_text c (inr reply) = contains reply c.expect_recv

-- What is said after connecting: nothing at all unless the check sends something.
abbrev pub is_answered : Peer → WebSocketCheckConfig → Bool
is_answered p c =
    c.send == [] || (is_done (p.send c.send) && (c.expect_recv == [] || has_text c p.receive))

abbrev pub reached_at : Peer → ℤ → WebSocketCheckConfig → Str ⊎ Url → Bool
reached_at p timeout c (inl e) = false
reached_at p timeout c (inr u) =
    is_done (p.new_config c.url (origin_of u)) && is_connected (p.dial (dial_config p timeout c u))

abbrev pub websocket_verdict : Peer → ℤ → Option WebSocketCheckConfig → Bool
websocket_verdict p timeout none = false
websocket_verdict p timeout (some c) = reached_at p timeout c (p.parse_url c.url) && is_answered p c

module _ {F : Type 0} (quote : Str → Str) where
  exchange-success :
      (c : WebSocketCheckConfig) (p : Peer) (r : Result F)
      → r.success ≡ false
      → (exchange quote c p r).success ≡ is_answered p c
  unfolding exchange sent judge_message
  exchange-success c p r e = ground arith

  dialled-success :
      (d : Dialled) (c : WebSocketCheckConfig) (p : Peer) (r : Result F)
      → r.success ≡ false
      → (dialled quote d c p r).success ≡ (is_connected d && is_answered p c)
  unfolding dialled
  dialled-success (cancelled x) c p r e = e
  dialled-success (refused x) c p r e = e
  dialled-success connected c p r e =
      exchange-success c p (record r { ws_connect_duration = p.connect_time }) e

  parsed-success :
      (u : Str ⊎ Url) (timeout : ℤ) (c : WebSocketCheckConfig) (p : Peer) (r : Result F)
      → r.success ≡ false
      → (parsed quote u timeout c p r).success ≡ (reached_at p timeout c u && is_answered p c)
  unfolding parsed built
  parsed-success (inl x) timeout c p r e = e
  parsed-success (inr u) timeout c p r e = elim (Option-cases (p.new_config c.url (origin_of u))) [
    | inl ok ↦ rw ok (dialled-success (p.dial (dial_config p timeout c u)) c p r e)
    | inr (x, bad) ↦ rw bad e
  ]

  configured-success :
      (o : Option WebSocketCheckConfig) (timeout : ℤ) (p : Peer) (r : Result F)
      → r.success ≡ false
      → (configured quote o timeout p r).success ≡ websocket_verdict p timeout o
  unfolding configured
  configured-success none timeout p r e = e
  configured-success (some c) timeout p r e = parsed-success (p.parse_url c.url) timeout c p r e

-- A run of the WebSocket checker succeeds exactly when the check is configured, its URL is readable,
-- the peer is connected to before the context ends, and, if the check sends a text, the text is sent
-- and, if it also expects one, the message received has it: without a text to send, nothing is
-- expected.
pub run-websocket_verdict :
    {F : Type 0} (quote : Str → Str) (zero_float : F) (now : ℕ) (p : Peer) (cfg : CheckConfig)
    (origin : Option Origin)
    → (run quote zero_float now p cfg origin).success
      ≡ websocket_verdict p (or_default half_minute cfg.timeout) cfg.websocket
unfolding run
run-websocket_verdict quote zero_float now p cfg origin =
    configured-success quote cfg.websocket (or_default half_minute cfg.timeout) p _ refl
