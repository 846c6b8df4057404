-- ===== src/Room/Store.antt =====
-- src/room.ts: `load` and `save` of RoomCore around its methods, and the calls that a room receives.
use wave_realtime_edge.Common.{
  false, true, str_eq, Bool, ℕ, String, Option, none, some, List, [], ◌∷◌,
}
use wave_realtime_edge.Room.State.{
  RoomConfig, RoomState, StoredState, empty_state, normalize_state, to_stored,
}
use wave_realtime_edge.Room.Core.{
  SfuError, Outcome, throw, pass, save, after, JoinRequest, AdmissionRequest,
}
use wave_realtime_edge.Room.Core
use wave_realtime_edge.Room.Admin
use wave_realtime_edge.Room.Admin.{JsNumber}
use wave_realtime_edge.Room.Tracks
use wave_realtime_edge.Room.Tracks.{TrackRequest}

-- The object: `state` is the cached state, `stored` what storage holds under STATE_KEY.
pub record RoomCore : Type 0 where
  pub state : Option RoomState
  pub stored : Option StoredState

-- `load` for the cache and the record that it finds, at the time `date_now`.
unfoldable pub load_from : ℕ → Option RoomState → Option StoredState → RoomState
unfolding normalize_state empty_state
load_from date_now (some s) stored = s
load_from date_now none (some r) = normalize_state r
load_from date_now none none = empty_state date_now

-- The state that `load` returns. It caches it too.
unfoldable pub load : ℕ → RoomCore → RoomState
unfolding load_from
load date_now c = load_from date_now c.state c.stored

pub data Result {ℓ} (A : Type ℓ) : Type ℓ where
  ok : A → Result A
  err : SfuError → Result A

-- What a method leaves behind that has loaded that state.
abbrev pub finish {ℓ} : {A : Type ℓ} → Outcome A → RoomState → RoomCore → RoomCore × Result A
finish (throw e) s c = (record c { state = some s }, err e)
finish (pass a) s c = (record c { state = some s }, ok a)
finish (save s' a) s c = (record { state = some s'; stored = some (to_stored s') }, ok a)

-- A whole call of a method. An error that it throws before it loads leaves the cache as it is.
unfoldable pub call {ℓ} :
    {A : Type ℓ} → Option SfuError → ℕ → (RoomState → Outcome A) → RoomCore → RoomCore × Result A
unfolding load
call (some e) date_now method c = (c, err e)
call none date_now method c = finish (method (load date_now c)) (load date_now c) c

-- The calls that can change a room, with the clock readings that they make.
pub data Call : Type 0 where
  ensure_room : RoomConfig → Call
  join_room : ℕ → String → JoinRequest → Call
  admission_check : ℕ → String → AdmissionRequest → Call
  admit : String → Call
  deny : ℕ → String → Call
  lock : Call
  unlock : Call
  set_capacity : Option JsNumber → Call
  eject : ℕ → String → Call
  ban : ℕ → String → Call
  end_room : ℕ → Call
  leave_room : ℕ → ℕ → String → String → Call
  register_track : ℕ → String → TrackRequest → Call
  touch_track : ℕ → String → Call
  unregister_track : String → Call
  reconcile_tracks : ℕ → Call

-- The calls that take a participant's seat away, or give it anew.
abbrev pub unseats : Call → String → Bool
unseats (Call.join_room now org p) pid = str_eq p.participant_id pid
unseats (Call.eject now x) pid = str_eq x pid
unseats (Call.ban now x) pid = str_eq x pid
unseats (Call.end_room now) pid = true
unseats (Call.leave_room now later org x) pid = str_eq x pid
unseats _ pid = false

-- The state after one call.
unfoldable pub apply : Call → RoomState → RoomState
apply (Call.ensure_room config) s = after (Core.ensure_room config s) s
apply (Call.join_room now org p) s = after (Core.join_room now org p s) s
apply (Call.admission_check now org p) s = after (Core.admission_check now org p s) s
apply (Call.admit pid) s = after (Admin.admit pid s) s
apply (Call.deny now pid) s = after (Admin.deny now pid s) s
apply Call.lock s = after (Admin.lock s) s
apply Call.unlock s = after (Admin.unlock s) s
apply (Call.set_capacity n) s = after (Admin.set_capacity n s) s
apply (Call.eject now pid) s = after (Admin.eject now pid s) s
apply (Call.ban now pid) s = after (Admin.ban now pid s) s
apply (Call.end_room now) s = after (Admin.end_room now s) s
apply (Call.leave_room now later org pid) s = after (Admin.leave_room now later org pid s) s
apply (Call.register_track now org t) s = after (Tracks.register_track now org t s) s
apply (Call.touch_track now name) s = after (Tracks.touch_track now name s) s
apply (Call.unregister_track name) s = after (Tracks.unregister_track name s) s
apply (Call.reconcile_tracks now) s = after (Tracks.reconcile_tracks now s) s

-- The state after a sequence of calls, in whatever order they come.
unfoldable pub apply_all : List Call → RoomState → RoomState
apply_all [] s = s
apply_all (c ∷ cs) s = apply_all cs (apply c s)
