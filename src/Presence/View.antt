-- ===== src/Presence/View.antt =====
-- src/presence.ts: the client-safe projection of a room.
use wave_realtime_edge.Common.{
  ℕ, String, Bool, false, Option, none, some, List, [], ◌∷◌, ◌≡◌, refl, Dict, values, map, length,
  if◌then◌else◌, ap₂,
}
use wave_realtime_edge.Room.State.{
  Role, Mode, Permissions, AdmissionPolicy, WaitingEntry, Participant, RoomTrack, TrackKind,
  RoomState,
}

pub record ViewParticipant : Type 0 where
  pub participant_id : String
  pub role : Role
  pub published_audio : Bool
  pub published_video : Bool

pub record ViewTrack : Type 0 where
  pub track_name : String
  pub participant_id : String
  pub kind : TrackKind

pub record ViewPolicy : Type 0 where
  pub mode : Mode
  pub locked : Bool
  pub capacity : Option ℕ

pub record RoomView : Type 0 where
  pub room_id : Option String
  pub occupancy : ℕ
  pub participants : List ViewParticipant
  pub tracks : List ViewTrack
  pub policy : Option ViewPolicy
  pub waiting_count : ℕ
  pub waiting : Option (List WaitingEntry)

abbrev pub view_participant : Participant → ViewParticipant
view_participant p = record {
  participant_id = p.participant_id;
  role = p.role;
  published_audio = p.published_audio;
  published_video = p.published_video;
}

abbrev pub view_track : RoomTrack → ViewTrack
view_track t = record {
  track_name = t.track_name;
  participant_id = t.participant_id;
  kind = t.kind;
}

abbrev pub view_policy : AdmissionPolicy → ViewPolicy
view_policy p = record { mode = p.mode; locked = p.locked; capacity = p.capacity }

abbrev map_option {ℓ κ} : {A : Type ℓ} {B : Type κ} → (A → B) → Option A → Option B
map_option f none = none
map_option f (some a) = some (f a)

unfoldable pub project_room_view : RoomState → Bool → RoomView
unfolding values
project_room_view s include_waiting =
    let participants = map view_participant (values s.participants) in
    let waiting_entries = values s.waiting in
    record {
      room_id = map_option (λ c. c.room_id) s.config;
      occupancy = length participants;
      participants = participants;
      tracks = map view_track (values s.tracks);
      policy = map_option view_policy s.policy;
      waiting_count = length waiting_entries;
      waiting = if include_waiting then some waiting_entries else none;
    }

-- Other values for what a client must not see: the SFU session, the join time and the permissions of each
-- participant, the SFU session and the time of each track, the ban list and the admitted markers.
pub record Secrets : Type 0 where
  pub session : Participant → String
  pub joined_at : Participant → ℕ
  pub permissions : Participant → Permissions
  pub track_session : RoomTrack → String
  pub last_seen_at : RoomTrack → ℕ
  pub banned : List String
  pub admitted : List String

abbrev pub other_participant : Secrets → Participant → Participant
other_participant x p = record p {
  session_id = x.session p;
  joined_at = x.joined_at p;
  permissions = x.permissions p;
}

abbrev pub other_track : Secrets → RoomTrack → RoomTrack
other_track x t = record t { session_id = x.track_session t; last_seen_at = x.last_seen_at t }

-- The same room with other secrets.
abbrev pub with_secrets : Secrets → RoomState → RoomState
with_secrets x s = record s {
  participants = map (λ e. (e.0, other_participant x e.1)) s.participants;
  tracks = map (λ e. (e.0, other_track x e.1)) s.tracks;
  banned = x.banned;
  admitted = x.admitted;
}

map-values-map {ℓ} :
    {V : Type 0} {W : Type ℓ} (v : V → W) (f : V → V) (m : Dict V)
    → ((x : V) → v (f x) ≡ v x)
    → map v (values (map (λ e. (e.0, f e.1)) m)) ≡ map v (values m)
unfolding values
map-values-map v f [] h = refl
map-values-map v f ((k, x) ∷ m) h = ap₂ ◌∷◌ (h x) (map-values-map v f m h)

-- A view shows none of a room's secrets: it is the same whatever the SFU sessions, join times and
-- permissions of the participants, the SFU sessions and times of the tracks, the ban list and the
-- admitted markers are.
pub project_room_view-secrets :
    (s : RoomState) (include_waiting : Bool) (x : Secrets)
    → project_room_view (with_secrets x s) include_waiting ≡ project_room_view s include_waiting
unfolding project_room_view
project_room_view-secrets s include_waiting x =
    rw
      (
        map-values-map view_participant (other_participant x) s.participants (λ p. refl),
        map-values-map view_track (other_track x) s.tracks (λ t. refl),
      )
      refl

-- A view that does not include the waiting room shows only how many wait: it is the same for any two
-- rooms that differ in nothing but the waiting entries, if these are equally many.
pub project_room_view-waiting :
    (s : RoomState) (waiting : Dict WaitingEntry)
    → length (values waiting) ≡ length (values s.waiting)
    → project_room_view (record s { waiting = waiting }) false ≡ project_room_view s false
unfolding project_room_view
project_room_view-waiting s waiting h = rw h
