-- ===== src/Presence/Engine.antt =====
-- src/presence.ts: the class PresenceHub, and the Durable Object glue that builds one for each call.
-- Sends and closes are effects in a list; a send to a socket that is going away is dropped there.
use wave_realtime_edge.Common.{
  ℕ, ◌+◌, String, Bool, true, false, not, Option, none, some, List, [], ◌∷◌, map, keep, Dict, get,
  put, leb, str_eq, if◌then◌else◌,
}
use wave_realtime_edge.Room.State.{Role, RoomState}
use wave_realtime_edge.Room.Core.{or_default, is_host}
use wave_realtime_edge.Presence.View.{RoomView, project_room_view}
use wave_realtime_edge.Presence.Wire.{
  Json, ServerMsg, welcome, state, data_from, pong, error, ping, data_msg, InboundResult, accepted,
  rejected, Frame, parse_inbound, default_max_message_bytes,
}

-- A connected client, with the socket that it is connected by.
pub record PresenceConn : Type 0 where
  pub socket : ℕ
  pub participant_id : String
  pub role : Role

pub data Effect : Type 0 where
  send : PresenceConn → ServerMsg → Effect
  close : ℕ → ℕ → Effect

pub record PresenceHub : Type 0 where
  pub max_bytes : ℕ
  pub max_violations : ℕ
  pub violations : Dict ℕ

pub record PresenceHubOptions : Type 0 where
  pub max_message_bytes : Option ℕ
  pub max_violations : Option ℕ

unfoldable pub new_hub : PresenceHubOptions → PresenceHub
new_hub opts = record {
  max_bytes = or_default opts.max_message_bytes default_max_message_bytes;
  max_violations = or_default opts.max_violations 8;
  violations = [];
}

unfoldable pub view_for : PresenceConn → RoomState → RoomView
view_for conn s = project_room_view s (is_host conn.role)

unfoldable pub welcome_effect : PresenceConn → RoomState → ℕ → List Effect
welcome_effect conn s version = send conn (welcome version (view_for conn s)) ∷ []

unfoldable pub broadcast : List PresenceConn → RoomState → ℕ → List Effect
unfolding view_for
broadcast conns s version = map (λ conn. send conn (state version (view_for conn s))) conns

-- One more violation of `conn`; at the limit its socket is closed with 1008.
unfoldable pub tick_violation : PresenceConn → PresenceHub → PresenceHub × List Effect × Bool
tick_violation conn hub =
    let n = or_default (get conn.participant_id hub.violations) 0 + 1 in
    let hub' = record hub { violations = put conn.participant_id n hub.violations } in
    if leb hub.max_violations n
    then (hub', close conn.socket 1008 ∷ [], true)
    else (hub', [], false)

abbrev pub is_other : PresenceConn → PresenceConn → Bool
is_other conn other = not (str_eq other.participant_id conn.participant_id)

-- A `data` message, to every other participant's sockets.
unfoldable pub fan_out : List PresenceConn → PresenceConn → Json → List Effect
unfolding keep
fan_out conns conn v =
    map (λ other. send other (data_from conn.participant_id v)) (keep (is_other conn) conns)

abbrev pub prepend : Effect → PresenceHub × List Effect × Bool → PresenceHub × List Effect × Bool
prepend e r = (r.0, e ∷ r.1, r.2)

unfoldable pub respond :
    List PresenceConn
    → PresenceConn
    → InboundResult
    → PresenceHub
    → PresenceHub × List Effect × Bool
unfolding tick_violation fan_out
respond conns conn (rejected code) hub = prepend (send conn (error code)) (tick_violation conn hub)
respond conns conn (accepted ping) hub = (hub, send conn pong ∷ [], false)
respond conns conn (accepted (data_msg v)) hub = (hub, fan_out conns conn v, false)

-- What a socket's attachment holds, if it can be read and names a participant.
pub record PresenceAttachment : Type 0 where
  pub participant_id : String
  pub role : Role

-- A hibernating socket of the Durable Object.
pub record Socket : Type 0 where
  pub id : ℕ
  pub attachment : Option PresenceAttachment

abbrev pub ws_conn : ℕ → PresenceAttachment → PresenceConn
ws_conn id att = record { socket = id; participant_id = att.participant_id; role = att.role }

abbrev pub conn_or_skip : ℕ → Option PresenceAttachment → List PresenceConn → List PresenceConn
conn_or_skip id none conns = conns
conn_or_skip id (some att) conns = ws_conn id att ∷ conns

unfoldable pub do_socket_registry : List Socket → List PresenceConn
do_socket_registry [] = []
do_socket_registry (ws ∷ sockets) = conn_or_skip ws.id ws.attachment (do_socket_registry sockets)

unfoldable pub broadcast_presence : List Socket → RoomState → ℕ → List Effect
unfolding broadcast do_socket_registry
broadcast_presence sockets s version = broadcast (do_socket_registry sockets) s version

module _ (json_parse : String → Option Json) where
  unfoldable pub handle :
      List PresenceConn → PresenceConn → Frame → PresenceHub → PresenceHub × List Effect × Bool
  unfolding respond
  handle conns conn raw hub = respond conns conn (parse_inbound json_parse raw hub.max_bytes) hub

  -- `onPresenceMessage` for the attachment of the socket.
  unfoldable pub on_attached :
      Option PresenceAttachment → List Socket → ℕ → Frame → PresenceHubOptions → List Effect
  unfolding handle do_socket_registry new_hub
  on_attached none sockets id message opts = close id 1008 ∷ []
  on_attached (some att) sockets id message opts =
      (handle (do_socket_registry sockets) (ws_conn id att) message (new_hub opts)).1

  unfoldable pub on_presence_message :
      List Socket → Socket → Frame → PresenceHubOptions → List Effect
  unfolding on_attached
  on_presence_message sockets ws message opts = on_attached ws.attachment sockets ws.id message opts
