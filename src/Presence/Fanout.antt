-- ===== src/Presence/Fanout.antt =====
-- Who receives what: PresenceHub.broadcast and the data channel of PresenceHub.handle.
use wave_realtime_edge.Common.{
  str_eq, true, Bool, ◌==◌, ℕ, String, false, List, [], ◌∷◌, if◌then◌else◌,
}
use wave_realtime_edge.Room.State.{Role, host, speaker, viewer, RoomState}
use wave_realtime_edge.Presence.View.{project_room_view}
use wave_realtime_edge.Presence.Wire.{state, Json, ServerMsg, data_from}
use wave_realtime_edge.Presence.Engine.{PresenceConn, Effect, send, close}

-- The messages that a list of effects sends to the sockets with that number.
unfoldable pub received : ℕ → List Effect → List ServerMsg
received k [] = []
received k (send c m ∷ es) = let rest = received k es in if c.socket == k then m ∷ rest else rest
received k (close j code ∷ es) = received k es

-- The copies of a data message that a socket should get: one for each of its connections whose
-- participant is not the sender.
unfoldable pub copies : ℕ → String → Json → List PresenceConn → List ServerMsg
copies k sender v [] = []
copies k sender v (c ∷ conns) =
    let rest = copies k sender v conns in
    if c.socket == k
    then if str_eq c.participant_id sender then rest else data_from sender v ∷ rest
    else rest

-- Only a host sees who waits.
abbrev pub sees_knocks : Role → Bool
sees_knocks host = true
sees_knocks speaker = false
sees_knocks viewer = false

-- The states that a socket should get from a broadcast: one for each of its connections.
pub states : ℕ → RoomState → ℕ → List PresenceConn → List ServerMsg
states k s version [] = []
states k s version (c ∷ conns) =
    let rest = states k s version conns in
    if c.socket == k then state version (project_room_view s (sees_knocks c.role)) ∷ rest else rest
