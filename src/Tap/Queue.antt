-- ===== src/Tap/Queue.antt =====
-- src/media-tap.ts: a frame, and the class BoundedFrameQueue. A promise is not modelled: `handed` lists what
-- the calls of next were resolved with, in that order, and `waiting` says that one is not resolved yet.
use wave_realtime_edge.Common.{
  ℕ, ◌+◌, String, Bool, true, false, Option, none, some, List, [], ◌∷◌, ◌++◌, length, drop, leb,
  if◌then◌else◌,
}
use wave_realtime_edge.Room.State.{TrackKind}

abbrev pub default_high_water : ℕ
default_high_water = 50

pub record TapFrame : Type 0 where
  pub session_id : String
  pub track_name : String
  pub kind : TrackKind
  pub participant_id : String
  pub seq : ℕ
  pub ts : ℕ
  pub bytes : List ℕ

pub record BoundedFrameQueue : Type 0 where
  pub buf : List TapFrame
  pub waiting : Bool
  pub closed : Bool
  pub delivered_count : ℕ
  pub dropped_count : ℕ
  pub handed : List (Option TapFrame)

abbrev pub empty_queue : BoundedFrameQueue
empty_queue = record {
  buf = [];
  waiting = false;
  closed = false;
  delivered_count = 0;
  dropped_count = 0;
  handed = [];
}

unfoldable pub push : ℕ → TapFrame → BoundedFrameQueue → BoundedFrameQueue
push high_water frame q =
    if q.closed
    then q
    else if q.waiting
    then record q {
      waiting = false;
      delivered_count = q.delivered_count + 1;
      handed = q.handed ++ some frame ∷ [];
    }
    else if leb high_water (length q.buf)
    then record q { buf = drop 1 q.buf ++ frame ∷ []; dropped_count = q.dropped_count + 1 }
    else record q { buf = q.buf ++ frame ∷ [] }

-- `next`, by what is in the buffer.
unfoldable pub next_from : List TapFrame → BoundedFrameQueue → BoundedFrameQueue
next_from (frame ∷ rest) q = record q {
  buf = rest;
  delivered_count = q.delivered_count + 1;
  handed = q.handed ++ some frame ∷ [];
}
next_from [] q =
    if q.closed then record q { handed = q.handed ++ none ∷ [] } else record q { waiting = true }

unfoldable pub next : BoundedFrameQueue → BoundedFrameQueue
unfolding next_from
next q = next_from q.buf q

unfoldable pub close : BoundedFrameQueue → BoundedFrameQueue
close q =
    if q.closed
    then q
    else if q.waiting
    then record q { closed = true; buf = []; waiting = false; handed = q.handed ++ none ∷ [] }
    else record q { closed = true; buf = [] }
