-- ===== src/Presence/Abuse.antt =====
-- The guard against clients that break the protocol: PresenceHub.tickViolation.
use wave_realtime_edge.Common.{
  sym, subst, keep, ℕ, ◌+◌, ◌≤◌, String, Bool, Option, some, List, [], ◌∷◌, ◌≡◌, arith, All, get,
  leb,
}
use wave_realtime_edge.Room.Core.{or_default}
use wave_realtime_edge.Presence.Wire.{
  Json, InboundResult, accepted, rejected, ping, data_msg, Frame, parse_inbound,
}
use wave_realtime_edge.Presence.Engine.{
  PresenceConn, Effect, send, close, PresenceHub, PresenceHubOptions, PresenceAttachment, Socket,
  respond, handle, tick_violation, new_hub, on_presence_message, on_attached, fan_out, ws_conn,
}

-- How many violations the hub has counted for a participant.
abbrev pub counted : String → PresenceHub → ℕ
counted pid hub = or_default (get pid hub.violations) 0

module _ (json_parse : String → Option Json) (conns : List PresenceConn) (conn : PresenceConn) where
  -- The frames of one client in turn, by one hub: the hub after them, and whether the last closed the
  -- socket.
  unfoldable pub handle_all : List Frame → PresenceHub → Bool → PresenceHub × Bool
  handle_all [] hub closed = (hub, closed)
  handle_all (raw ∷ frames) hub closed =
      let (hub', effects, closed') = handle json_parse conns conn raw hub in
      handle_all frames hub' closed'

  -- What one violation does to the hub.
  abbrev Ticked : PresenceHub → PresenceHub × List Effect × Bool → Type 0
  Ticked hub r =
      (counted conn.participant_id r.0 ≡ counted conn.participant_id hub + 1)
      × (r.0.max_bytes ≡ hub.max_bytes)
      × (r.0.max_violations ≡ hub.max_violations)
      × (r.2 ≡ leb hub.max_violations (counted conn.participant_id hub + 1))

  -- Every frame is one that the parser rejects.
  abbrev pub AllInvalid : ℕ → List Frame → Type 0
  AllInvalid max_bytes =
      All (λ raw. (code : String) × (parse_inbound json_parse raw max_bytes ≡ rejected code))

abbrev pub IsSend : Effect → Type 0
IsSend (send c m) = Unit
IsSend (close k code) = ⊥

fan_out-IsSend :
    (conns : List PresenceConn) (conn : PresenceConn) (v : Json) → All IsSend (fan_out conns conn v)
unfolding fan_out keep
fan_out-IsSend [] conn v = tt
fan_out-IsSend (c ∷ conns) conn v = ground (arith, fan_out-IsSend conns conn v)

tick_violation-new_hub :
    (conn : PresenceConn) (opts : PresenceHubOptions)
    → 2 ≤ or_default opts.max_violations 8
    → (tick_violation conn (new_hub opts)).1 ≡ []
unfolding tick_violation new_hub get
tick_violation-new_hub conn opts h = ground arith

respond-IsSend :
    (conns : List PresenceConn) (conn : PresenceConn) (r : InboundResult)
    (opts : PresenceHubOptions)
    → 2 ≤ or_default opts.max_violations 8
    → All IsSend (respond conns conn r (new_hub opts)).1
unfolding respond
respond-IsSend conns conn (rejected code) opts h =
    (tt, subst (All IsSend) (sym (tick_violation-new_hub conn opts h)) tt)
respond-IsSend conns conn (accepted ping) opts h = (tt, tt)
respond-IsSend conns conn (accepted (data_msg v)) opts h = fan_out-IsSend conns conn v

-- The limit on violations never takes effect in the Durable Object, where each frame meets a new hub:
-- for any limit of at least 2 (the default is 8), no frame of a socket with a readable attachment, and
-- so no sequence of such frames, makes `onPresenceMessage` close a socket.
pub on_presence_message-never_closes :
    (json_parse : String → Option Json) (sockets : List Socket) (ws : Socket)
    (att : PresenceAttachment) (opts : PresenceHubOptions)
    → ws.attachment ≡ some att
    → 2 ≤ or_default opts.max_violations 8
    → (message : Frame) → All IsSend (on_presence_message json_parse sockets ws message opts)
unfolding on_presence_message
on_presence_message-never_closes json_parse sockets ws att opts e h message =
    subst (λ a. All IsSend (on_attached json_parse a sockets ws.id message opts)) (sym e)
      (unfold on_attached handle in
        respond-IsSend _ (ws_conn ws.id att)
          (parse_inbound json_parse message (new_hub opts).max_bytes) opts h)
