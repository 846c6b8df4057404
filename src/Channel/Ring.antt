-- ===== src/Channel/Ring.antt =====
-- src/channel.ts: an event and the class HistoryRing.
use wave_realtime_edge.Common.{
  ℕ, ◌+◌, String, Option, none, some, List, [], ◌∷◌, ◌++◌, length, drop, ltb, if◌then◌else◌,
}
use wave_realtime_edge.Channel.Recent.{recent}

abbrev pub history_cap : ℕ
history_cap = 50

-- The `data` of an event is its JSON text.
pub record ChannelEvent : Type 0 where
  pub id : String
  pub ts : ℕ
  pub event : String
  pub content : String

pub record HistoryRing : Type 0 where
  pub buf : List ChannelEvent
  pub cap : ℕ

unfoldable pub new_ring : ℕ → HistoryRing
new_ring cap = record { buf = []; cap = if ltb 0 cap then cap else history_cap }

abbrev pub or_no_events : Option (List ChannelEvent) → List ChannelEvent
or_no_events none = []
or_no_events (some events) = events

unfoldable pub from_array : Option (List ChannelEvent) → ℕ → HistoryRing
unfolding new_ring recent
from_array events cap =
    let ring = new_ring cap in
    record ring { buf = ring.buf ++ recent ring.cap (or_no_events events) }

unfoldable pub push : ChannelEvent → HistoryRing → HistoryRing
push e ring =
    let grown = ring.buf ++ e ∷ [] in
    record ring { buf = if ltb ring.cap (length grown) then drop 1 grown else grown }

-- A limit that a request names: below zero, a whole number, or strictly between n and n + 1.
pub data Limit : Type 0 where
  negative : Limit
  whole : ℕ → Limit
  fraction : ℕ → Limit

abbrev pub min : ℕ → ℕ → ℕ
min a b = if ltb a b then a else b

-- How many events a limit stands for, within the cap. The start of the slice is rounded down, so a
-- fraction counts as the next whole number.
unfoldable pub clamp : Limit → ℕ → ℕ
clamp negative cap = 0
clamp (whole n) cap = min n cap
clamp (fraction n) cap = min (n + 1) cap

unfoldable pub list : Option Limit → HistoryRing → List ChannelEvent
unfolding clamp recent
list none ring = ring.buf
list (some limit) ring = recent (clamp limit ring.cap) ring.buf
