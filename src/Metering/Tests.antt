-- ===== src/Metering/Tests.antt =====
-- The theorems on the meter lines at a concrete room.
use wave_realtime_edge.Common.{◌≡◌, ◌∷◌, none, some, refl, get, put, true, false, []}
use wave_realtime_edge.Room.State.{
  Participant, RoomTrack, RoomConfig, RoomState, empty_state, speaker, video,
}
use wave_realtime_edge.Room.Core.{bound_to, save}
use wave_realtime_edge.Room.Admin.{leave_room, ParticipantSessionUsage}
use wave_realtime_edge.Room.Tracks.{TrackRequest, register_found, register_track}
use wave_realtime_edge.Room.Store.{Call, apply_all}
use wave_realtime_edge.Metering.Lines.{
  egress_overage_gb, connected_minutes, line_key, line_if, meter_egress_gb, egress_included_gb,
  build_meter_lines, session_minutes_for,
}
use wave_realtime_edge.Metering.Billed.{meter_of, tier, values_of, leave_room-bills}

abbrev acme : RoomConfig
acme = record { room_id = "r1"; org = "acme"; ttl_ms = none; room_type = none }

abbrev ann : Participant
ann = record {
  participant_id = "ann";
  session_id = "s1";
  role = speaker;
  permissions = record { can_publish = true; can_subscribe = true };
  joined_at = 5;
  published_audio = false;
  published_video = false;
}

abbrev studio : RoomState
studio = record (empty_state 0) { config = some acme; participants = ("ann", ann) ∷ [] }

abbrev camera : TrackRequest
camera = record { track_name = "cam"; session_id = "s1"; participant_id = "ann"; kind = video }

abbrev camera_track : RoomTrack
camera_track = record {
  track_name = "cam";
  session_id = "s1";
  participant_id = "ann";
  kind = video;
  last_seen_at = 9;
}

-- The studio once Ann publishes her camera.
abbrev studio_camera : RoomState
studio_camera = record studio {
  participants = ("ann", record ann { published_video = true }) ∷ [];
  tracks = ("cam", camera_track) ∷ [];
}

-- A line of video minutes and one of egress beyond an allotment of 2 GB.
overage_is_billed :
    build_meter_lines
      (record {
        org = "acme";
        room = "r1";
        participant_id = "ann";
        session_id = "s1";
        joined_at = 5;
        left_at = 60005;
        published_audio = false;
        published_video = true;
        egress_bytes = some 2000000001;
      })
      (some 2)
    ≡ record {
      meter = "wave_realtime_video_minutes";
      meter_value = record { numerator = 60000; denominator = 60000 };
      event_id = "r1:ann:s1:wave_realtime_video_minutes";
    }
      ∷ record {
        meter = "wave_sfu_egress_gb";
        meter_value = record { numerator = 1; denominator = 1000000000 };
        event_id = "r1:ann:s1:wave_sfu_egress_gb";
      }
      ∷ []
unfolding build_meter_lines line_if line_key connected_minutes egress_overage_gb
overage_is_billed = refl

leave_room-bills_example :
    (left : RoomState) × (u : ParticipantSessionUsage) × (leave_room 90 91 "acme" "ann"
        (apply_all (Call.unregister_track "cam" ∷ []) studio_camera)
      ≡ save left (some u))
    × (values_of (meter_of video) (build_meter_lines u egress_included_gb)
        ≡ record { numerator = 86; denominator = 60000 } ∷ [])
    × (values_of meter_egress_gb (build_meter_lines u egress_included_gb) ≡ [])
    × (tier video (session_minutes_for u) ≡ record { numerator = 86; denominator = 60000 })
unfolding empty_state register_track register_found bound_to get put
leave_room-bills_example =
    leave_room-bills 9 "acme" camera studio studio_camera camera_track acme ann
      (Call.unregister_track "cam" ∷ []) 90 91 refl refl refl refl (refl, tt)
