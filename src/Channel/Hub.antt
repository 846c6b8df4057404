-- ===== src/Channel/Hub.antt =====
-- src/channel.ts: the class ChannelHub. What it sends is a list of frames, each with its socket.
use wave_realtime_edge.Common.{
  ℕ, String, str_eq, none, List, [], ◌∷◌, ◌++◌, if◌then◌else◌, includes,
}
use wave_realtime_edge.Channel.Ring.{ChannelEvent, HistoryRing, list}

-- A socket, by its number, and the member id of its attachment.
pub record ChannelConn : Type 0 where
  pub socket : ℕ
  pub id : String

pub data ChannelServerMsg : Type 0 where
  welcome_msg : String → List String → List ChannelEvent → ChannelServerMsg
  message_msg : ChannelEvent → ChannelServerMsg
  join_msg : String → ChannelServerMsg
  leave_msg : String → ChannelServerMsg
  presence_msg : List String → ChannelServerMsg

abbrev pub Sent : Type 0
Sent = List (ℕ × ChannelServerMsg)

unfoldable pub members_from : List String → List ChannelConn → List String
unfolding includes
members_from seen [] = []
members_from seen (conn ∷ conns) =
    let known = includes seen conn.id in
    let rest = members_from (if known then seen else seen ++ conn.id ∷ []) conns in
    if known then rest else conn.id ∷ rest

unfoldable pub members : List ChannelConn → List String
unfolding members_from
members conns = members_from [] conns

unfoldable pub send_all : ChannelServerMsg → List ChannelConn → Sent
send_all msg [] = []
send_all msg (conn ∷ conns) = (conn.socket, msg) ∷ send_all msg conns

unfoldable pub send_others : String → ChannelServerMsg → List ChannelConn → Sent
send_others id msg [] = []
send_others id msg (conn ∷ conns) =
    let rest = send_others id msg conns in
    if str_eq conn.id id then rest else (conn.socket, msg) ∷ rest

unfoldable pub broadcast_presence : List ChannelConn → Sent
unfolding members send_all
broadcast_presence conns = send_all (presence_msg (members conns)) conns

unfoldable pub welcome : ChannelConn → String → List ChannelConn → HistoryRing → Sent
unfolding members list
welcome conn channel conns history =
    (conn.socket, welcome_msg channel (members conns) (list none history)) ∷ []

unfoldable pub announce_join : ChannelConn → List ChannelConn → Sent
unfolding send_others broadcast_presence
announce_join conn conns = send_others conn.id (join_msg conn.id) conns ++ broadcast_presence conns

unfoldable pub announce_leave : ChannelConn → List ChannelConn → Sent
unfolding send_others broadcast_presence
announce_leave conn conns =
    send_others conn.id (leave_msg conn.id) conns ++ broadcast_presence conns
