-- ===== src/Room/Tracks.antt =====
-- src/room.ts: the track registry of RoomCore.
use wave_realtime_edge.Common.{
  Option, ℕ, ◌-◌, String, Bool, true, not, none, some, List, [], ◌∷◌, Dict, get, put, del, values,
  keep, ltb, if◌then◌else◌, str_eq, map,
}
use wave_realtime_edge.Room.State.{
  Participant, TrackKind, audio, video, RoomTrack, RoomState, track_gc_ms,
}
use wave_realtime_edge.Room.Core.{
  bad_request, participant_not_in_room, Outcome, throw, pass, save, bound_to,
}

pub record TrackRequest : Type 0 where
  pub track_name : String
  pub session_id : String
  pub participant_id : String
  pub kind : TrackKind

-- The sticky publish flag of the owner.
abbrev pub mark : TrackKind → Participant → Participant
mark audio p = record p { published_audio = true }
mark video p = record p { published_video = true }

unfoldable pub register_found :
    Option Participant → ℕ → TrackRequest → RoomState → Outcome RoomTrack
register_found none now t s = throw participant_not_in_room
register_found (some owner) now t s =
    let track : RoomTrack = record {
      track_name = t.track_name;
      session_id = t.session_id;
      participant_id = t.participant_id;
      kind = t.kind;
      last_seen_at = now;
    } in
    if str_eq t.track_name ""
    then throw bad_request
    else save
        (record s {
          tracks = put t.track_name track s.tracks;
          participants = put t.participant_id (mark t.kind owner) s.participants;
        })
        track

unfoldable pub register_track : ℕ → String → TrackRequest → RoomState → Outcome RoomTrack
unfolding bound_to register_found
register_track now org t s =
    bound_to s.config org (register_found (get t.participant_id s.participants) now t s)

unfoldable pub touch_found : Option RoomTrack → ℕ → String → RoomState → Outcome (Unit {0})
touch_found none now name s = pass tt
touch_found (some t) now name s =
    save (record s { tracks = put name (record t { last_seen_at = now }) s.tracks }) tt

unfoldable pub touch_track : ℕ → String → RoomState → Outcome (Unit {0})
unfolding touch_found
touch_track now name s = touch_found (get name s.tracks) now name s

unfoldable pub unregister_found : Option RoomTrack → String → RoomState → Outcome (Unit {0})
unregister_found none name s = pass tt
unregister_found (some t) name s = save (record s { tracks = del name s.tracks }) tt

unfoldable pub unregister_track : String → RoomState → Outcome (Unit {0})
unfolding unregister_found
unregister_track name s = unregister_found (get name s.tracks) name s

-- `t.lastSeenAt < cutoff`. Where the source's cutoff is negative no time lies below it, and none
-- lies below the 0 that `-` gives.
abbrev pub is_stale : ℕ → RoomTrack → Bool
is_stale now t = ltb t.last_seen_at (now - track_gc_ms)

-- The loop of `reconcileTracks`: the tracks kept and the names removed.
unfoldable pub live_tracks : ℕ → Dict RoomTrack → Dict RoomTrack
unfolding keep
live_tracks now tracks = keep (λ e. not (is_stale now e.1)) tracks

unfoldable pub stale_names : ℕ → Dict RoomTrack → List String
unfolding keep
stale_names now tracks = map (λ e. e.0) (keep (λ e. is_stale now e.1) tracks)

-- `if (removed.length) await this.save(s)`
abbrev pub save_if_removed : List String → RoomState → Outcome (List String)
save_if_removed [] s = pass []
save_if_removed (n ∷ ns) s = save s (n ∷ ns)

unfoldable pub reconcile_tracks : ℕ → RoomState → Outcome (List String)
unfolding live_tracks stale_names
reconcile_tracks now s =
    save_if_removed (stale_names now s.tracks) (record s { tracks = live_tracks now s.tracks })

unfoldable pub snapshot : RoomState → Outcome RoomState
snapshot s = pass s

unfoldable pub list_participants : RoomState → Outcome (List Participant)
list_participants s = pass (values s.participants)

unfoldable pub list_tracks : RoomState → Outcome (List RoomTrack)
list_tracks s = pass (values s.tracks)
