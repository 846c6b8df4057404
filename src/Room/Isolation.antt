-- ===== src/Room/Isolation.antt =====
-- The isolation of organisations: RoomCore.ensureRoom and the methods that take an org.
use wave_realtime_edge.Common.{ℕ, String, true, some, List, ◌≡◌, ◌≢◌, arith, eq_ne}
use wave_realtime_edge.Room.State.{RoomConfig, RoomState}
use wave_realtime_edge.Room.Core.{
  room_org_mismatch, throw, JoinRequest, seat, join_guard, join_room, AdmissionRequest, enqueue,
  admission_guard, admission_check, ensure_room, type_known,
}
use wave_realtime_edge.Room.Admin.{
  admit_entry, deny_entry, unseat, deny_record, end_room, leave_room,
}
use wave_realtime_edge.Room.Tracks.{TrackRequest, register_track}
use wave_realtime_edge.Room.Store.{Call, apply_all}
use wave_realtime_edge.Room.Change.{Change, bound, denied, apply_all_always}

-- No change touches the binding of a room.
pub Change-config :
    (config : RoomConfig) (c : Call) (s t : RoomState)
    → Change c s t
    → s.config ≡ some config
    → t.config ≡ some config
unfolding seat enqueue admit_entry deny_entry unseat deny_record end_room
Change-config config c s t (bound x y k n) h = cc
Change-config config c s t (denied now x v e) h = ground arith
Change-config config c s t _ h = h

module _ (config : RoomConfig) (org : String) (ne : config.org ≢ org) (s : RoomState)
    (h : s.config ≡ some config) where
  join_room_foreign :
      (now : ℕ) (p : JoinRequest) → join_room now org p s ≡ throw (room_org_mismatch 403)
  unfolding join_room join_guard
  join_room_foreign now p = ground (arith, eq_ne config.org org ne)

  admission_check_foreign :
      (now : ℕ) (p : AdmissionRequest) → admission_check now org p s ≡ throw (room_org_mismatch 403)
  unfolding admission_check admission_guard
  admission_check_foreign now p = ground (arith, eq_ne config.org org ne)

  leave_room_foreign :
      (now later : ℕ) (pid : String)
      → leave_room now later org pid s ≡ throw (room_org_mismatch 403)
  unfolding leave_room
  leave_room_foreign now later pid = ground (arith, eq_ne config.org org ne)

  register_track_foreign :
      (now : ℕ) (t : TrackRequest) → register_track now org t s ≡ throw (room_org_mismatch 403)
  unfolding register_track
  register_track_foreign now t = ground (arith, eq_ne config.org org ne)

  ensure_room_foreign :
      (request : RoomConfig)
      → request.org ≡ org
      → type_known request.room_type ≡ true
      → ensure_room request s ≡ throw (room_org_mismatch 409)
  unfolding ensure_room
  ensure_room_foreign request e k = ground (arith, eq_ne config.org org ne)

-- A room that is bound to an org and a room id stays so after any calls, and then it refuses every
-- other org: joinRoom, admissionCheck, leaveRoom and registerTrack with 403, and ensureRoom, for a
-- known room type, with 409, all ROOM_ORG_MISMATCH.
pub bound_room-refuses_foreign :
    (config : RoomConfig) (org : String) (s : RoomState) (cs : List Call) (request : RoomConfig)
    → config.org ≢ org
    → s.config ≡ some config
    → request.org ≡ org
    → type_known request.room_type ≡ true
    → let s' = apply_all cs s in
      (s'.config ≡ some config)
      × ((now : ℕ) (p : JoinRequest) → join_room now org p s' ≡ throw (room_org_mismatch 403))
      × ((now : ℕ) (p : AdmissionRequest)
          → admission_check now org p s' ≡ throw (room_org_mismatch 403))
      × ((now later : ℕ) (pid : String)
          → leave_room now later org pid s' ≡ throw (room_org_mismatch 403))
      × ((now : ℕ) (t : TrackRequest) → register_track now org t s' ≡ throw (room_org_mismatch 403))
      × (ensure_room request s' ≡ throw (room_org_mismatch 409))
bound_room-refuses_foreign config org s cs request ne h foreign known =
    let s' = apply_all cs s in
    let h' : s'.config ≡ some config =
      apply_all_always (λ t. t.config ≡ some config) (Change-config config) cs s h in
    (
      h',
      join_room_foreign config org ne s' h',
      admission_check_foreign config org ne s' h',
      leave_room_foreign config org ne s' h',
      register_track_foreign config org ne s' h',
      ensure_room_foreign config org ne s' h' request foreign known,
    )
