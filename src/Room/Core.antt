-- ===== src/Room/Core.antt =====
-- src/room.ts: the methods of RoomCore, each as a function of the loaded state. A method throws, or
-- returns without a save, or saves a state and returns. `now` is the value of `this.now()`.
use wave_realtime_edge.Common.{
  Bool-cases, refl, ◌≡◌, ◌⊎◌, ◌≢◌, ◌&&◌, not, inl, inr, arith, Option-cases, ℕ, String, Bool, true,
  false, not, ◌&&◌, ◌||◌, Option, none, some, get, put, del, includes, without, length, leb,
  if◌then◌else◌, str_eq,
}
use wave_realtime_edge.Room.State.{
  Role, host, speaker, Mode, knock, auto, AdmissionPolicy, policy_defaults, is_room_type,
  Permissions, Participant, RoomConfig, RoomState, role_default_perms, default_room_ttl_ms,
}

-- The SfuErrors that RoomCore throws, by their code (and status).
pub data SfuError : Type 0 where
  bad_room_type : SfuError
  room_org_mismatch : ℕ → SfuError
  room_not_bound : SfuError
  bad_request : SfuError
  participant_banned : SfuError
  anonymous_forbidden : SfuError
  room_locked : SfuError
  room_full : SfuError
  participant_not_waiting : SfuError
  participant_not_in_room : SfuError
  bad_capacity : SfuError

pub data Outcome {ℓ} (A : Type ℓ) : Type ℓ where
  throw : SfuError → Outcome A
  pass : A → Outcome A
  save : RoomState → A → Outcome A

-- The state that later calls see.
abbrev pub after {ℓ} : {A : Type ℓ} → Outcome A → RoomState → RoomState
after (throw e) s = s
after (pass a) s = s
after (save s' a) s = s'

-- The guard on the binding of the room that some methods begin with.
unfoldable pub bound_to {ℓ} : {A : Type ℓ} → Option RoomConfig → String → Outcome A → Outcome A
bound_to none org k = throw room_not_bound
bound_to (some config) org k = if str_eq config.org org then k else throw (room_org_mismatch 403)

abbrev pub or_default {ℓ} : {A : Type ℓ} → Option A → A → A
or_default none d = d
or_default (some a) d = a

abbrev pub type_known : Option String → Bool
type_known none = true
type_known (some t) = is_room_type t

-- `if (config.type) s.policy = { ...POLICY_DEFAULTS[config.type] }`; an empty type was refused.
abbrev pub policy_of : Option String → Option AdmissionPolicy → Option AdmissionPolicy
policy_of none p = p
policy_of (some t) p = get t policy_defaults

-- `if (config.type && !s.policy) { …; await this.save(s) }`, before `return s.config`.
unfoldable pub apply_type :
    Option String → Option AdmissionPolicy → RoomConfig → RoomState → Outcome RoomConfig
apply_type none policy config s = pass config
apply_type (some t) none config s = save (record s { policy = get t policy_defaults }) config
apply_type (some t) (some _) config s = pass config

-- The config that a first bind stores.
abbrev bind_config : RoomConfig → RoomConfig
bind_config config = record {
  room_id = config.room_id;
  org = config.org;
  ttl_ms = some (or_default config.ttl_ms default_room_ttl_ms);
  room_type = none;
}

-- `ensureRoom` below the check of the type, for the config that the room has.
unfoldable pub bind : Option RoomConfig → RoomConfig → RoomState → Outcome RoomConfig
unfolding apply_type get
bind (some old) config s =
    if str_eq old.org config.org && str_eq old.room_id config.room_id
    then apply_type config.room_type s.policy old s
    else throw (room_org_mismatch 409)
bind none config s =
    save
      (record s {
        config = some (bind_config config);
        policy = policy_of config.room_type s.policy;
      })
      (bind_config config)

unfoldable pub ensure_room : RoomConfig → RoomState → Outcome RoomConfig
unfolding is_room_type bind
ensure_room config s =
    if type_known config.room_type then bind s.config config s else throw bad_room_type

-- `capacity !== null && occupancy >= capacity`
abbrev pub is_full : Option ℕ → ℕ → Bool
is_full none occupancy = false
is_full (some c) occupancy = leb c occupancy

pub record JoinRequest : Type 0 where
  pub participant_id : String
  pub session_id : String
  pub role : Option Role
  pub permissions : Option Permissions

-- The role of a joiner who names none.
abbrev default_role_of : Option AdmissionPolicy → Role
default_role_of none = speaker
default_role_of (some p) = p.default_role

-- The part of `joinRoom` below its guards.
unfoldable pub seat : ℕ → JoinRequest → RoomState → Outcome Participant
seat now p s =
    let role = or_default p.role (default_role_of s.policy) in
    let participant : Participant = record {
      participant_id = p.participant_id;
      session_id = p.session_id;
      role = role;
      permissions = or_default p.permissions (role_default_perms role);
      joined_at = now;
      published_audio = false;
      published_video = false;
    } in
    save
      (record s {
        participants = put p.participant_id participant s.participants;
        waiting = del p.participant_id s.waiting;
        admitted = without p.participant_id s.admitted;
        empty_at = none;
      })
      participant

-- The `if (s.policy)` block of `joinRoom`.
abbrev pub join_refusal : String → RoomState → AdmissionPolicy → Option SfuError
join_refusal pid s policy =
    if includes s.banned pid
    then some participant_banned
    else if policy.locked
    then some room_locked
    else if is_full policy.capacity (length s.participants)
    then some room_full
    else none

-- The throws of `joinRoom`, all of which precede its changes.
unfoldable pub join_guard : String → JoinRequest → RoomState → Option SfuError
join_guard org p s = elim s.config [
  | none ↦ some room_not_bound
  | some config ↦
      if str_eq config.org org
      then if str_eq p.participant_id "" || str_eq p.session_id ""
        then some bad_request
        else elim s.policy [ none ↦ none | some policy ↦ join_refusal p.participant_id s policy ]
      else some (room_org_mismatch 403)
]

unfoldable pub join_room : ℕ → String → JoinRequest → RoomState → Outcome Participant
join_room now org p s = elim (join_guard org p s) [ some e ↦ throw e | none ↦ seat now p s ]

pub record AdmissionRequest : Type 0 where
  pub participant_id : String
  pub role : Option Role
  pub anon : Option Bool

abbrev is_true : Option Bool → Bool
is_true none = false
is_true (some b) = b

abbrev pub is_host : Role → Bool
is_host host = true
is_host _ = false

abbrev pub is_knock : Mode → Bool
is_knock knock = true
is_knock auto = false

-- The refusals of `admissionCheck`, in its order.
abbrev pub admission_refusal : AdmissionRequest → RoomState → AdmissionPolicy → Option SfuError
admission_refusal p s policy =
    if includes s.banned p.participant_id
    then some participant_banned
    else if is_true p.anon && not policy.allow_anonymous
    then some anonymous_forbidden
    else if policy.locked
    then some room_locked
    else if is_full policy.capacity (length s.participants)
    then some room_full
    else none

-- `none` is "proceed to joinRoom"; `some pid` is `{ waiting: true, participantId: pid }`.
-- The throws of `admissionCheck`.
unfoldable pub admission_guard : String → AdmissionRequest → RoomState → Option SfuError
admission_guard org p s = elim s.config [
  | none ↦ some room_not_bound
  | some config ↦
      if str_eq config.org org
      then elim s.policy [ none ↦ none | some policy ↦ admission_refusal p s policy ]
      else some (room_org_mismatch 403)
]

-- The entry in the waiting room.
unfoldable pub enqueue : ℕ → String → Role → RoomState → Outcome (Option String)
enqueue now pid role s =
    save
      (record s {
        waiting =
            put pid (record { participant_id = pid; role = role; requested_at = now }) s.waiting;
        empty_at = none;
      })
      (some pid)

-- `admissionCheck` below its throws, for the policy of the room. `none` is "proceed to joinRoom";
-- `some pid` is `{ waiting: true, participantId: pid }`.
unfoldable pub queue_or_pass :
    ℕ → AdmissionRequest → RoomState → Option AdmissionPolicy → Outcome (Option String)
queue_or_pass now p s none = pass none
queue_or_pass now p s (some policy) =
    let role = or_default p.role policy.default_role in
    if is_knock policy.mode && not (is_host role) && not (includes s.admitted p.participant_id)
    then enqueue now p.participant_id role s
    else pass none

unfoldable pub admission_check : ℕ → String → AdmissionRequest → RoomState → Outcome (Option String)
admission_check now org p s = elim (admission_guard org p s) [
  | some e ↦ throw e
  | none ↦ queue_or_pass now p s s.policy
]

-- A call of `joinRoom` leaves the state alone, or its guard lets the participant take a seat.
pub join_room-cases :
    (now : ℕ) (org : String) (p : JoinRequest) (s : RoomState)
    → (after (join_room now org p s) s ≡ s)
      ⊎ ((join_guard org p s ≡ none) × (join_room now org p s ≡ seat now p s))
unfolding join_room
join_room-cases now org p s = elim (Option-cases (join_guard org p s)) [
  | inl e ↦ inr (e, rw (e, join_room))
  | inr (x, e) ↦ inl (rw (e, join_room))
]

queue_or_pass-cases :
    (now : ℕ) (p : AdmissionRequest) (s : RoomState) (policy : Option AdmissionPolicy)
    → (queue_or_pass now p s policy ≡ pass none)
      ⊎ ((role : Role) × (queue_or_pass now p s policy ≡ enqueue now p.participant_id role s))
unfolding queue_or_pass
queue_or_pass-cases now p s none = inl refl
queue_or_pass-cases now p s (some policy) =
    elim (Bool-cases (
      is_knock policy.mode
      && not (is_host (or_default p.role policy.default_role))
      && not (includes s.admitted p.participant_id))) [
        | inl e ↦ inr (or_default p.role policy.default_role, rw e)
        | inr e ↦ inl (rw e)
      ]

-- A call of `admissionCheck` leaves the state alone, or its guard lets the participant queue.
pub admission_check-cases :
    (now : ℕ) (org : String) (p : AdmissionRequest) (s : RoomState)
    → (after (admission_check now org p s) s ≡ s)
      ⊎ ((admission_guard org p s ≡ none)
          × (role : Role) × (admission_check now org p s ≡ enqueue now p.participant_id role s))
unfolding admission_check
admission_check-cases now org p s = elim (Option-cases (admission_guard org p s)) [
  | inr (x, e) ↦ inl (rw (e, admission_check))
  | inl e ↦ elim (queue_or_pass-cases now p s s.policy) [
    | inl k ↦ inl (rw (e, admission_check) (rw k))
    | inr (role, k) ↦ inr (e, role, rw (e, admission_check) k)
  ]
]

-- The guards pass nobody whom the room has banned, while it has a policy.
pub join_guard-ne_banned :
    (org : String) (p : JoinRequest) (s : RoomState)
    → s.policy ≢ none
    → join_guard org p s ≡ none
    → includes s.banned p.participant_id ≡ false
unfolding join_guard
join_guard-ne_banned org p s g h = ground arith

pub admission_guard-ne_banned :
    (org : String) (p : AdmissionRequest) (s : RoomState)
    → s.policy ≢ none
    → admission_guard org p s ≡ none
    → includes s.banned p.participant_id ≡ false
unfolding admission_guard
admission_guard-ne_banned org p s g h = ground arith
