-- ===== src/Channel/History.antt =====
-- src/channel-do.ts: the history of a channel, across evictions.
use wave_realtime_edge.Common.{
  ◌+◌, leb, ℕ, String, str_eq, ◌≡◌, Bool, Option, none, some, List, [], ◌∷◌, ◌++◌, if◌then◌else◌,
}
use wave_realtime_edge.Channel.Recent.{recent}
use wave_realtime_edge.Channel.Ring.{
  history_cap, ChannelEvent, HistoryRing, from_array, Limit, negative, whole, fraction,
}
use wave_realtime_edge.Channel.Hub.{ChannelConn}
use wave_realtime_edge.Channel.Object.{
  ChannelDo, ring_of, accept_connect, handle_publish, handle_history, web_socket_close,
}

-- What happens to a channel: the calls, and an eviction, which loses what is in memory.
pub data ChannelCall : Type 0 where
  connect : ℕ → String → String → String → ChannelCall
  publish : String → ℕ → String → String → ChannelCall
  read_history : Option Limit → ChannelCall
  socket_closed : Bool → ChannelConn → ChannelCall
  evict : ChannelCall

unfoldable pub perform : ChannelCall → ChannelDo → ChannelDo
unfolding accept_connect handle_publish handle_history web_socket_close
perform (connect socket wanted minted channel) s = (accept_connect socket wanted minted channel s).1
perform (publish minted now event content) s = (handle_publish minted now event content s).2
perform (read_history limit) s = (handle_history limit s).1
perform (socket_closed still_listed conn) s = (web_socket_close still_listed conn s).1
perform evict s = record s { history = none }

unfoldable pub perform_all : List ChannelCall → ChannelDo → ChannelDo
unfolding perform
perform_all [] s = s
perform_all (call ∷ calls) s = perform_all calls (perform call s)

-- The events that a call publishes, and those of a list of calls, in order.
unfoldable pub event_of : ChannelCall → List ChannelEvent
event_of (publish minted now event content) =
    if str_eq event ""
    then []
    else (record { id = minted; ts = now; event = event; content = content }) ∷ []
event_of (connect socket wanted minted channel) = []
event_of (read_history limit) = []
event_of (socket_closed still_listed conn) = []
event_of evict = []

unfoldable pub all_events : List ChannelCall → List ChannelEvent
unfolding event_of
all_events [] = []
all_events (call ∷ calls) = event_of call ++ all_events calls

-- The number n, but at most fifty.
abbrev pub at_most_fifty : ℕ → ℕ
at_most_fifty n = if leb n 50 then n else 50

-- How many events a request of the history should get: what its limit says, with a fraction as the next
-- whole number and a negative limit as 0, at most fifty, and fifty without a limit.
abbrev pub asked : Option Limit → ℕ
asked none = 50
asked (some negative) = 0
asked (some (whole n)) = at_most_fifty n
asked (some (fraction n)) = at_most_fifty (n + 1)

-- A ring that holds the last events of a log.
abbrev IsTail : List ChannelEvent → HistoryRing → Type 0
IsTail log ring = (ring.cap ≡ history_cap) × (ring.buf ≡ recent history_cap log)

-- The memory, if it is there, and the storage hold the last events.
record Holds (log : List ChannelEvent) (s : ChannelDo) : Type 0 where
  ring_tail : IsTail log (ring_of s.history s.stored)
  stored_tail : IsTail log (from_array s.stored history_cap)
