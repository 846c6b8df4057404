-- ===== src/Channel/Object.antt =====
-- src/channel-do.ts: the class ChannelDO. `sockets` are the live sockets whose attachment can be read, in the
-- order of the runtime; `stored` is what the storage has under the key of the history. The ids and times
-- that are minted are arguments. A Durable Object takes one call at a time.
use wave_realtime_edge.Common.{
  ℕ, String, str_eq, Bool, Option, none, some, List, [], ◌∷◌, ◌++◌, length, ◌==◌, if◌then◌else◌,
}
use wave_realtime_edge.Channel.Ring.{
  history_cap, ChannelEvent, HistoryRing, from_array, push, Limit, list,
}
use wave_realtime_edge.Channel.Hub.{
  ChannelConn, Sent, members, send_all, welcome, announce_join, announce_leave, message_msg,
}

pub record ChannelDo : Type 0 where
  pub sockets : List ChannelConn
  pub stored : Option (List ChannelEvent)
  pub history : Option HistoryRing

abbrev pub new_channel : ChannelDo
new_channel = record { sockets = []; stored = none; history = none }

unfoldable pub ring_of : Option HistoryRing → Option (List ChannelEvent) → HistoryRing
unfolding from_array
ring_of (some ring) stored = ring
ring_of none stored = from_array stored history_cap

-- `ensureHistory`: the ring is read from the storage once.
unfoldable pub ensure_history : ChannelDo → HistoryRing × ChannelDo
unfolding ring_of
ensure_history s = let ring = ring_of s.history s.stored in (ring, record s { history = some ring })

-- `as || minted`
abbrev pub member_id : String → String → String
member_id wanted minted = if str_eq wanted "" then minted else wanted

unfoldable pub accept_connect : ℕ → String → String → String → ChannelDo → Sent × ChannelDo
unfolding ensure_history welcome announce_join
accept_connect socket wanted minted channel s =
    let conn : ChannelConn = record { socket = socket; id = member_id wanted minted } in
    let sockets = s.sockets ++ conn ∷ [] in
    let (ring, s') = ensure_history s in
    (
      welcome conn channel sockets ring ++ announce_join conn sockets,
      record s' { sockets = sockets },
    )

pub data ChannelResponse : Type 0 where
  bad_request : ChannelResponse
  published : ℕ → String → ChannelResponse
  events : List ChannelEvent → ChannelResponse
  member_list : List String → ChannelResponse

-- The publish of the hub, and `persistHistory`.
unfoldable pub publish_event : ChannelEvent → ChannelDo → ChannelDo
unfolding ensure_history push
publish_event e s =
    let (ring, s') = ensure_history s in
    let grown = push e ring in record s' { history = some grown; stored = some grown.buf }

-- A body without an `event` has the empty text for it.
unfoldable pub handle_publish :
    String → ℕ → String → String → ChannelDo → ChannelResponse × Sent × ChannelDo
unfolding publish_event send_all
handle_publish minted now event content s =
    let e : ChannelEvent = record { id = minted; ts = now; event = event; content = content } in
    if str_eq event "" then (bad_request, [], s) else (
      published (length s.sockets) minted,
      send_all (message_msg e) s.sockets,
      publish_event e s,
    )

unfoldable pub handle_presence : ChannelDo → ChannelResponse
unfolding members
handle_presence s = member_list (members s.sockets)

-- A limit that is no finite number is left out.
unfoldable pub handle_history : Option Limit → ChannelDo → ChannelResponse × ChannelDo
unfolding ensure_history list
handle_history limit s = let (ring, s') = ensure_history s in (events (list limit ring), s')

unfoldable pub without_socket : ℕ → List ChannelConn → List ChannelConn
without_socket n [] = []
without_socket n (conn ∷ conns) =
    let rest = without_socket n conns in if conn.socket == n then rest else conn ∷ rest

-- `webSocketClose` and `webSocketError`; the runtime may list the closing socket still, and then it drops it.
unfoldable pub web_socket_close : Bool → ChannelConn → ChannelDo → Sent × ChannelDo
unfolding announce_leave without_socket
web_socket_close still_listed conn s =
    let left = without_socket conn.socket s.sockets in
    (announce_leave conn (if still_listed then s.sockets else left), record s { sockets = left })
