-- ===== src/Tap/Fanout.antt =====
-- src/media-tap.ts: the class MediaTap, and the look-up of a frame's track in the room. The queues of the
-- handles that have been closed or replaced are listed apart: no operation of the tap reaches them.
use wave_realtime_edge.Common.{
  ℕ, ◌+◌, String, str_eq, Bool, true, false, ◌||◌, not, Option, none, some, List, [], ◌∷◌, ◌++◌,
  if◌then◌else◌, Dict, get, put, del, includes,
}
use wave_realtime_edge.Room.State.{TrackKind, audio, video, RoomState}
use wave_realtime_edge.Tap.Queue.{TapFrame, BoundedFrameQueue, empty_queue, push, next, close}

pub record TapFrameInput : Type 0 where
  pub session_id : String
  pub track_name : String
  pub kind : TrackKind
  pub participant_id : String
  pub ts : ℕ
  pub bytes : List ℕ

pub record TapSelector : Type 0 where
  pub kinds : Option (List TrackKind)
  pub track_names : Option (List String)
  pub participant_ids : Option (List String)

unfoldable pub same_kind : TrackKind → TrackKind → Bool
same_kind audio audio = true
same_kind video video = true
same_kind a b = false

unfoldable pub includes_kind : List TrackKind → TrackKind → Bool
unfolding same_kind
includes_kind [] k = false
includes_kind (j ∷ js) k = same_kind j k || includes_kind js k

-- `sel.kinds && !sel.kinds.includes(k)` does not refuse.
unfoldable pub allows_kind : Option (List TrackKind) → TrackKind → Bool
unfolding includes_kind
allows_kind none k = true
allows_kind (some ks) k = includes_kind ks k

unfoldable pub allows_name : Option (List String) → String → Bool
unfolding includes
allows_name none s = true
allows_name (some ss) s = includes ss s

unfoldable pub selector_matches : TapSelector → TapFrame → Bool
unfolding allows_kind allows_name
selector_matches sel frame =
    if not (allows_kind sel.kinds frame.kind)
    then false
    else if not (allows_name sel.track_names frame.track_name)
    then false
    else if not (allows_name sel.participant_ids frame.participant_id)
    then false
    else true

pub record TapConsumer : Type 0 where
  pub selector : TapSelector
  pub queue : BoundedFrameQueue

pub record MediaTap : Type 0 where
  pub consumers : Dict TapConsumer
  pub seq : ℕ
  pub high_water : ℕ
  pub ended : List (String × BoundedFrameQueue)

abbrev pub new_tap : ℕ → MediaTap
new_tap high_water = record { consumers = []; seq = 0; high_water = high_water; ended = [] }

-- The queue of a consumer is closed.
unfoldable pub retire :
    String
    → Option TapConsumer
    → List (String × BoundedFrameQueue)
    → List (String × BoundedFrameQueue)
unfolding close
retire consumer_id none ended = ended
retire consumer_id (some c) ended = ended ++ (consumer_id, close c.queue) ∷ []

-- The handle that the id had is closed; the id keeps its place.
unfoldable pub subscribe : String → TapSelector → MediaTap → MediaTap
unfolding put retire
subscribe consumer_id selector tap = record tap {
  consumers = put consumer_id (record { selector = selector; queue = empty_queue }) tap.consumers;
  ended = retire consumer_id (get consumer_id tap.consumers) tap.ended;
}

abbrev pub frame_of : ℕ → TapFrameInput → TapFrame
frame_of seq input = record {
  session_id = input.session_id;
  track_name = input.track_name;
  kind = input.kind;
  participant_id = input.participant_id;
  seq = seq;
  ts = input.ts;
  bytes = input.bytes;
}

-- What one consumer makes of a frame.
unfoldable pub offer : ℕ → TapFrame → TapConsumer → TapConsumer
unfolding selector_matches push
offer high_water frame c =
    if selector_matches c.selector frame
    then record c { queue = push high_water frame c.queue }
    else c

unfoldable pub offer_all : ℕ → TapFrame → Dict TapConsumer → Dict TapConsumer
unfolding offer
offer_all high_water frame [] = []
offer_all high_water frame ((id, c) ∷ cs) =
    (id, offer high_water frame c) ∷ offer_all high_water frame cs

unfoldable pub count_reached : TapFrame → Dict TapConsumer → ℕ
unfolding selector_matches
count_reached frame [] = 0
count_reached frame ((id, c) ∷ cs) =
    (if selector_matches c.selector frame then 1 else 0) + count_reached frame cs

unfoldable pub publish : TapFrameInput → MediaTap → ℕ × MediaTap
unfolding offer_all count_reached
publish input tap =
    let frame = frame_of (tap.seq + 1) input in
    (
      count_reached frame tap.consumers,
      record tap { seq = tap.seq + 1; consumers = offer_all tap.high_water frame tap.consumers },
    )

unfoldable pub unsubscribe : String → MediaTap → MediaTap
unfolding del retire
unsubscribe consumer_id tap = record tap {
  consumers = del consumer_id tap.consumers;
  ended = retire consumer_id (get consumer_id tap.consumers) tap.ended;
}

-- `next` of the handle that the id has.
unfoldable pub next_of : Option TapConsumer → String → MediaTap → MediaTap
unfolding put next
next_of none consumer_id tap = tap
next_of (some c) consumer_id tap = record tap {
  consumers = put consumer_id (record c { queue = next c.queue }) tap.consumers;
}

unfoldable pub drain : String → MediaTap → MediaTap
unfolding next_of get
drain consumer_id tap = next_of (get consumer_id tap.consumers) consumer_id tap

-- `resolveTapTrack`: the participant and the kind of a track that is registered for the session.
unfoldable pub resolve_tap_track : RoomState → String → String → Option (String × TrackKind)
unfolding get
resolve_tap_track state session_id track_name = elim (get track_name state.tracks) [
  | none ↦ none
  | some track ↦
      if str_eq track.session_id session_id then some (track.participant_id, track.kind) else none
]

-- `tapPublishFrame`. The flag is on or the tap is left alone; a look-up of the room that throws, and a
-- track that the room does not know, publish nothing.
unfoldable pub tap_publish_frame :
    Bool → Option RoomState → String → String → List ℕ → ℕ → MediaTap → MediaTap
unfolding resolve_tap_track publish
tap_publish_frame enabled snapshot session_id track_name frame now tap =
    if not enabled then tap else elim snapshot [
      | none ↦ tap
      | some state ↦ elim (resolve_tap_track state session_id track_name) [
        | none ↦ tap
        | some (participant_id, kind) ↦
            (publish
              (record {
                session_id = session_id;
                track_name = track_name;
                kind = kind;
                participant_id = participant_id;
                ts = now;
                bytes = frame;
              })
              tap).1
      ]
    ]
