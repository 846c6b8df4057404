-- ===== src/Room/Serve.antt =====
-- src/room.ts: the calls of a room as they are served, each by its method of RoomCore, with what it answers.
use wave_realtime_edge.Common.{ℕ, String, Option, none, some, List, if◌then◌else◌}
use wave_realtime_edge.Room.State.{RoomConfig, RoomState, Participant, WaitingEntry, RoomTrack}
use wave_realtime_edge.Room.Core.{
  SfuError, bad_room_type, bad_capacity, Outcome, throw, pass, save, type_known,
}
use wave_realtime_edge.Room.Core
use wave_realtime_edge.Room.Admin
use wave_realtime_edge.Room.Admin.{ParticipantSessionUsage, JsNumber, safe_natural}
use wave_realtime_edge.Room.Tracks
use wave_realtime_edge.Room.Store.{RoomCore, Result, call, Call}

-- What a method returns, by its type.
pub data Reply : Type 0 where
  done : Reply
  of_config : RoomConfig → Reply
  of_participant : Participant → Reply
  of_entry : WaitingEntry → Reply
  of_track : RoomTrack → Reply
  of_id : Option String → Reply
  of_ids : List String → Reply
  of_usage : Option ParticipantSessionUsage → Reply

abbrev pub as_reply {ℓ} : {A : Type ℓ} → (A → Reply) → Outcome A → Outcome Reply
as_reply f (throw e) = throw e
as_reply f (pass a) = pass (f a)
as_reply f (save s a) = save s (f a)

-- The method that a call is for.
unfoldable pub method : Call → RoomState → Outcome Reply
method (Call.ensure_room config) s = as_reply Reply.of_config (Core.ensure_room config s)
method (Call.join_room now org p) s = as_reply Reply.of_participant (Core.join_room now org p s)
method (Call.admission_check now org p) s = as_reply Reply.of_id (Core.admission_check now org p s)
method (Call.admit pid) s = as_reply Reply.of_entry (Admin.admit pid s)
method (Call.deny now pid) s = as_reply (λ x. Reply.done) (Admin.deny now pid s)
method Call.lock s = as_reply (λ x. Reply.done) (Admin.lock s)
method Call.unlock s = as_reply (λ x. Reply.done) (Admin.unlock s)
method (Call.set_capacity n) s = as_reply (λ x. Reply.done) (Admin.set_capacity n s)
method (Call.eject now pid) s = as_reply Reply.of_id (Admin.eject now pid s)
method (Call.ban now pid) s = as_reply Reply.of_id (Admin.ban now pid s)
method (Call.end_room now) s = as_reply Reply.of_ids (Admin.end_room now s)
method (Call.leave_room now later org pid) s =
    as_reply Reply.of_usage (Admin.leave_room now later org pid s)
method (Call.register_track now org t) s =
    as_reply Reply.of_track (Tracks.register_track now org t s)
method (Call.touch_track now name) s = as_reply (λ x. Reply.done) (Tracks.touch_track now name s)
method (Call.unregister_track name) s = as_reply (λ x. Reply.done) (Tracks.unregister_track name s)
method (Call.reconcile_tracks now) s = as_reply Reply.of_ids (Tracks.reconcile_tracks now s)

-- The checks of the room's type and of the capacity, which stand before the state is loaded.
abbrev pub type_refused : Option String → Option SfuError
type_refused t = if type_known t then none else some bad_room_type

abbrev pub capacity_refused : Option JsNumber → Option SfuError
capacity_refused none = none
capacity_refused (some n) = elim (safe_natural n) [ none ↦ some bad_capacity | some c ↦ none ]

-- The error that a call is refused with before the state is loaded, if there is one.
unfoldable pub early : Call → Option SfuError
early (Call.ensure_room config) = type_refused config.room_type
early (Call.set_capacity n) = capacity_refused n
early _ = none

unfoldable pub serve : ℕ → Call → RoomCore → RoomCore × Result Reply
unfolding call method early
serve date_now c core = call (early c) date_now (method c) core
