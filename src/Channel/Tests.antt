-- ===== src/Channel/Tests.antt =====
-- Instances of the theorem on the history of a channel.
use wave_realtime_edge.Common.{◌≡◌, refl, some, List, [], ◌∷◌}
use wave_realtime_edge.Channel.Recent.{recent}
use wave_realtime_edge.Channel.Ring.{clamp, fraction}
use wave_realtime_edge.Channel.Hub.{ChannelConn, members}
use wave_realtime_edge.Channel.History.{ChannelCall, all_events, asked, connect, publish, evict}

-- Two events with an eviction between them, and one without a name.
abbrev calls : List ChannelCall
calls =
    connect 1 "alice" "m-1" "stream:abc"
    ∷ publish "e-1" 10 "tick" "1"
    ∷ publish "e-2" 20 "" "2"
    ∷ evict
    ∷ publish "e-3" 30 "tock" "3"
    ∷ []

last_event :
    recent (asked (some (fraction 0))) (all_events calls)
    ≡ (record { id = "e-3"; ts = 30; event = "tock"; content = "3" }) ∷ []
unfolding recent clamp all_events
last_event = refl

abbrev alice : ChannelConn
alice = record { socket = 1; id = "alice" }

-- A member with two sockets is one member.
members_once : members (alice ∷ alice ∷ []) ≡ "alice" ∷ []
unfolding members
members_once = refl
