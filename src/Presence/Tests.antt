-- ===== src/Presence/Tests.antt =====
-- The theorems on the presence sockets at concrete rooms and frames.
use wave_realtime_edge.Common.{
  String, str_eq, ◌≡◌, refl, true, false, Option, none, some, [], ◌∷◌, arith, All, if◌then◌else◌,
}
use wave_realtime_edge.Room.State.{
  WaitingEntry, Participant, RoomTrack, RoomState, speaker, viewer, audio,
}
use wave_realtime_edge.Presence.View.{
  project_room_view, Secrets, with_secrets, project_room_view-secrets,
}
use wave_realtime_edge.Presence.Wire.{
  end, text, field, object, number, Json, data_from, binary_frame,
}
use wave_realtime_edge.Presence.Engine.{
  PresenceConn, PresenceHub, PresenceAttachment, Socket, on_presence_message,
}
use wave_realtime_edge.Presence.Fanout.{copies}
use wave_realtime_edge.Presence.Abuse.{IsSend, on_presence_message-never_closes}
use wave_realtime_edge.Presence.Version.{
  Versions, emitted, IsIncreasing, current, emitted-IsIncreasing, emit, welcomed, evicted,
}

abbrev ann : Participant
ann = record {
  participant_id = "ann";
  session_id = "s1";
  role = speaker;
  permissions = record { can_publish = true; can_subscribe = true };
  joined_at = 5;
  published_audio = true;
  published_video = false;
}

abbrev microphone : RoomTrack
microphone = record {
  track_name = "mic";
  session_id = "s1";
  participant_id = "ann";
  kind = audio;
  last_seen_at = 7;
}

abbrev bob_knocks : WaitingEntry
bob_knocks = record { participant_id = "bob"; role = viewer; requested_at = 6 }

abbrev cat_knocks : WaitingEntry
cat_knocks = record { participant_id = "cat"; role = viewer; requested_at = 8 }

abbrev meeting : RoomState
meeting = record {
  config = none;
  participants = ("ann", ann) ∷ [];
  tracks = ("mic", microphone) ∷ [];
  empty_at = none;
  policy = none;
  waiting = ("bob", bob_knocks) ∷ [];
  banned = [];
  admitted = [];
}

abbrev other_secrets : Secrets
other_secrets = record {
  session = λ p. "secret";
  joined_at = λ p. 0;
  permissions = λ p. record { can_publish = false; can_subscribe = false };
  track_session = λ t. "secret";
  last_seen_at = λ t. 0;
  banned = "eve" ∷ [];
  admitted = "bob" ∷ [];
}

project_room_view-secrets_example :
    project_room_view (with_secrets other_secrets meeting) true ≡ project_room_view meeting true
project_room_view-secrets_example = project_room_view-secrets meeting true other_secrets

-- A JSON.parse that knows one text.
abbrev parse_one : String → Option Json
parse_one raw =
    if str_eq raw "{data}"
    then some (object (field "type" (text "data") (field "data" (number 7) end)))
    else none

abbrev ann_conn : PresenceConn
ann_conn = record { socket = 1; participant_id = "ann"; role = speaker }

abbrev bob_conn : PresenceConn
bob_conn = record { socket = 2; participant_id = "bob"; role = viewer }

abbrev hub : PresenceHub
hub = record { max_bytes = 100; max_violations = 2; violations = [] }

-- The socket of Bob gets the message, and that of Ann, who sent it, nothing.
copies_at_sockets :
    (copies 2 "ann" (number 7) (ann_conn ∷ bob_conn ∷ []) ≡ data_from "ann" (number 7) ∷ [])
    × (copies 1 "ann" (number 7) (ann_conn ∷ bob_conn ∷ []) ≡ [])
unfolding copies
copies_at_sockets = (refl, refl)

abbrev ann_attached : PresenceAttachment
ann_attached = record { participant_id = "ann"; role = speaker }

abbrev ann_socket : Socket
ann_socket = record { id = 1; attachment = some ann_attached }

on_presence_message-never_closes_example : All IsSend (
    on_presence_message parse_one
      (ann_socket ∷ [])
      ann_socket
      binary_frame
      (record { max_message_bytes = none; max_violations = none }))
on_presence_message-never_closes_example =
    on_presence_message-never_closes parse_one (ann_socket ∷ []) ann_socket ann_attached
      (record { max_message_bytes = none; max_violations = none }) refl (omega arith) binary_frame

abbrev counter : Versions
counter = record { cached = none; stored = some 4 }

emitted-IsIncreasing_example :
    IsIncreasing (current counter) (emitted (emit ∷ evicted ∷ welcomed ∷ emit ∷ []) counter)
emitted-IsIncreasing_example =
    emitted-IsIncreasing (emit ∷ evicted ∷ welcomed ∷ emit ∷ []) counter (λ n e. absurd (cc))
