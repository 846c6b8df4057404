-- ===== src/Room/State.antt =====
-- src/room-state.ts: the data model of a room, its policy defaults and the helpers on its state.
-- Times are milliseconds as natural numbers; `undefined` and `null` are `none`.
use wave_realtime_edge.Common.{
  ℕ, ◌*◌, String, Bool, true, false, Option, none, some, List, [], ◌∷◌, Dict, includes,
}

abbrev pub track_gc_ms : ℕ
track_gc_ms = 30000

abbrev pub default_room_ttl_ms : ℕ
default_room_ttl_ms = 30 * 60000

pub data Role : Type 0 where
  host speaker viewer : Role

pub data Mode : Type 0 where
  knock auto : Mode

pub record AdmissionPolicy : Type 0 where
  pub mode : Mode
  pub locked : Bool
  pub capacity : Option ℕ
  pub default_role : Role
  pub allow_anonymous : Bool

abbrev pub policy_defaults : Dict AdmissionPolicy
policy_defaults =
    (
      "meeting",
      record {
        mode = knock;
        locked = false;
        capacity = none;
        default_role = speaker;
        allow_anonymous = false;
      },
    )
    ∷ (
      "webinar",
      record {
        mode = auto;
        locked = false;
        capacity = none;
        default_role = viewer;
        allow_anonymous = true;
      },
    )
    ∷ (
      "event",
      record {
        mode = auto;
        locked = false;
        capacity = some 10000;
        default_role = viewer;
        allow_anonymous = true;
      },
    )
    ∷ (
      "breakout",
      record {
        mode = auto;
        locked = false;
        capacity = none;
        default_role = viewer;
        allow_anonymous = false;
      },
    )
    ∷ []

-- `Object.keys(POLICY_DEFAULTS)`
abbrev pub room_types : List String
room_types = "meeting" ∷ "webinar" ∷ "event" ∷ "breakout" ∷ []

unfoldable pub is_room_type : String → Bool
unfolding includes
is_room_type t = includes room_types t

pub record WaitingEntry : Type 0 where
  pub participant_id : String
  pub role : Role
  pub requested_at : ℕ

pub record Permissions : Type 0 where
  pub can_publish : Bool
  pub can_subscribe : Bool

-- The optional flags are `=== true` wherever they are read, so absent is `false`.
pub record Participant : Type 0 where
  pub participant_id : String
  pub session_id : String
  pub role : Role
  pub permissions : Permissions
  pub joined_at : ℕ
  pub published_audio : Bool
  pub published_video : Bool

pub data TrackKind : Type 0 where
  audio video : TrackKind

pub record RoomTrack : Type 0 where
  pub track_name : String
  pub session_id : String
  pub participant_id : String
  pub kind : TrackKind
  pub last_seen_at : ℕ

-- `type` is the raw text of the request: it is checked at run time.
pub record RoomConfig : Type 0 where
  pub room_id : String
  pub org : String
  pub ttl_ms : Option ℕ
  pub room_type : Option String

pub record RoomState : Type 0 where
  pub config : Option RoomConfig
  pub participants : Dict Participant
  pub tracks : Dict RoomTrack
  pub empty_at : Option ℕ
  pub policy : Option AdmissionPolicy
  pub waiting : Dict WaitingEntry
  pub banned : List String
  pub admitted : List String

abbrev pub role_default_perms : Role → Permissions
role_default_perms host = record { can_publish = true; can_subscribe = true }
role_default_perms speaker = record { can_publish = true; can_subscribe = true }
role_default_perms viewer = record { can_publish = false; can_subscribe = true }

-- The argument is `Date.now()`.
unfoldable pub empty_state : ℕ → RoomState
empty_state date_now = record {
  config = none;
  participants = [];
  tracks = [];
  empty_at = some date_now;
  policy = none;
  waiting = [];
  banned = [];
  admitted = [];
}

-- A record as storage holds it: written by this code or by an older version of it, which lacks
-- some of the fields.
pub record StoredState : Type 0 where
  pub config : Option RoomConfig
  pub participants : Option (Dict Participant)
  pub tracks : Option (Dict RoomTrack)
  pub empty_at : Option ℕ
  pub policy : Option AdmissionPolicy
  pub waiting : Option (Dict WaitingEntry)
  pub banned : Option (List String)
  pub admitted : Option (List String)

abbrev pub or_empty {ℓ} : {A : Type ℓ} → Option (List A) → List A
or_empty none = []
or_empty (some xs) = xs

unfoldable pub normalize_state : StoredState → RoomState
normalize_state s = record {
  config = s.config;
  participants = or_empty s.participants;
  tracks = or_empty s.tracks;
  empty_at = s.empty_at;
  policy = s.policy;
  waiting = or_empty s.waiting;
  banned = or_empty s.banned;
  admitted = or_empty s.admitted;
}

-- What `put` writes: every field is there.
unfoldable pub to_stored : RoomState → StoredState
to_stored s = record {
  config = s.config;
  participants = some s.participants;
  tracks = some s.tracks;
  empty_at = s.empty_at;
  policy = s.policy;
  waiting = some s.waiting;
  banned = some s.banned;
  admitted = some s.admitted;
}
