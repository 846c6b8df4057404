-- ===== src/Room/Admin.antt =====
-- src/room.ts: the admission and safety operations of RoomCore, from `admit` to `listWaiting`,
-- `isExpired` and `leaveRoom`.
use wave_realtime_edge.Common.{
  ℕ, ◌+◌, ◌^◌, ◌&&◌, String, Bool, true, false, not, ◌&&◌, Option, none, some, List, [], ◌∷◌, ◌++◌,
  Dict, get, del, values, includes, without, keep, length, ltb, leb, if◌then◌else◌, str_eq, ◌==◌,
  map,
}
use wave_realtime_edge.Room.State.{
  RoomConfig, WaitingEntry, Participant, RoomTrack, RoomState, AdmissionPolicy, default_room_ttl_ms,
}
use wave_realtime_edge.Room.Core.{
  room_org_mismatch, participant_not_waiting, bad_capacity, Outcome, throw, pass, save, or_default,
}

-- `admit` for the entry that it finds.
unfoldable pub admit_entry : Option WaitingEntry → String → RoomState → Outcome WaitingEntry
admit_entry none pid s = throw participant_not_waiting
admit_entry (some entry) pid s =
    save
      (record s {
        waiting = del pid s.waiting;
        admitted = if includes s.admitted pid then s.admitted else s.admitted ++ pid ∷ [];
        empty_at = none;
      })
      entry

unfoldable pub admit : String → RoomState → Outcome WaitingEntry
unfolding admit_entry
admit pid s = admit_entry (get pid s.waiting) pid s

abbrev pub is_idle : RoomState → Bool
is_idle s = length s.participants == 0 && length s.waiting == 0 && length s.admitted == 0

-- `if (this.isIdle(s) && s.emptyAt == null) s.emptyAt = this.now()`
abbrev pub idle_clock : ℕ → Bool → Option ℕ → Option ℕ
idle_clock now true none = some now
idle_clock now true (some t) = some t
idle_clock now false t = t

abbrev pub start_clock : ℕ → RoomState → RoomState
start_clock now s = record s { empty_at = idle_clock now (is_idle s) s.empty_at }

unfoldable pub deny_entry : Option WaitingEntry → ℕ → String → RoomState → Outcome (Unit {0})
deny_entry none now pid s = pass tt
deny_entry (some entry) now pid s =
    save
      (start_clock now
        (record s { waiting = del pid s.waiting; admitted = without pid s.admitted }))
      tt

unfoldable pub deny : ℕ → String → RoomState → Outcome (Unit {0})
unfolding deny_entry
deny now pid s = deny_entry (get pid s.waiting) now pid s

-- The body of `lock`, `unlock` and `setCapacity`: nothing happens in a room with no policy.
abbrev pub with_policy :
    Option AdmissionPolicy → (AdmissionPolicy → AdmissionPolicy) → RoomState → Outcome (Unit {0})
with_policy none f s = pass tt
with_policy (some p) f s = save (record s { policy = some (f p) }) tt

unfoldable pub lock : RoomState → Outcome (Unit {0})
lock s = with_policy s.policy (λ p. record p { locked = true }) s

unfoldable pub unlock : RoomState → Outcome (Unit {0})
unlock s = with_policy s.policy (λ p. record p { locked = false }) s

-- A JavaScript number, as far as `setCapacity` tells one from another.
pub data JsNumber : Type 0 where
  natural : ℕ → JsNumber
  negative : JsNumber
  not_integer : JsNumber

-- `Number.isSafeInteger(n) && n >= 0`
abbrev pub safe_natural : JsNumber → Option ℕ
safe_natural (natural n) = if ltb n (2 ^ 53) then some n else none
safe_natural negative = none
safe_natural not_integer = none

unfoldable pub set_capacity : Option JsNumber → RoomState → Outcome (Unit {0})
set_capacity none s = with_policy s.policy (λ p. record p { capacity = none }) s
set_capacity (some n) s = elim (safe_natural n) [
  | none ↦ throw bad_capacity
  | some c ↦ with_policy s.policy (λ p. record p { capacity = some c }) s
]

-- The loop `for (const [name, t] of Object.entries(s.tracks))` of `eject` and `leaveRoom`.
unfoldable pub drop_session : String → Dict RoomTrack → Dict RoomTrack
unfolding keep
drop_session session_id tracks = keep (λ e. not (str_eq (e.1).session_id session_id)) tracks

-- `if (Object.keys(s.participants).length === 0) s.emptyAt = this.now()`
abbrev pub empty_clock : ℕ → Dict Participant → Option ℕ → Option ℕ
empty_clock now [] t = some now
empty_clock now (_ ∷ _) t = t

-- The removal of a seated participant, in `eject` and in `leaveRoom`.
unfoldable pub unseat : ℕ → String → String → RoomState → RoomState
unseat now pid session_id s = record s {
  participants = del pid s.participants;
  tracks = drop_session session_id s.tracks;
  empty_at = empty_clock now (del pid s.participants) s.empty_at;
}

unfoldable pub eject_found : Option Participant → ℕ → String → RoomState → Outcome (Option String)
unfolding unseat
eject_found none now pid s = pass none
eject_found (some p) now pid s = save (unseat now pid p.session_id s) (some p.session_id)

unfoldable pub eject : ℕ → String → RoomState → Outcome (Option String)
unfolding eject_found
eject now pid s = eject_found (get pid s.participants) now pid s

-- The part of `ban` up to its save.
unfoldable pub deny_record : String → RoomState → RoomState
deny_record pid s = record s {
  banned = if includes s.banned pid then s.banned else s.banned ++ pid ∷ [];
  waiting = del pid s.waiting;
}

-- A state was saved, and `m` ran on it; `eject` does not throw.
abbrev pub saved {ℓ} : {A : Type ℓ} → RoomState → Outcome A → Outcome A
saved s (throw e) = throw e
saved s (pass a) = save s a
saved s (save s' a) = save s' a

unfoldable pub ban : ℕ → String → RoomState → Outcome (Option String)
unfolding deny_record eject
ban now pid s = saved (deny_record pid s) (eject now pid (deny_record pid s))

unfoldable pub end_room : ℕ → RoomState → Outcome (List String)
end_room now s =
    save (record s { participants = []; tracks = []; waiting = []; empty_at = some now })
      (map (λ p. p.session_id) (values s.participants))

unfoldable pub list_waiting : RoomState → Outcome (List WaitingEntry)
list_waiting s = pass (values s.waiting)

-- The last two tests of `isExpired`.
abbrev pub past_ttl : Option RoomConfig → Option ℕ → Bool → ℕ → Bool
past_ttl none t idle now = false
past_ttl (some config) none idle now = false
past_ttl (some config) (some t) idle now =
    idle && leb (t + or_default config.ttl_ms default_room_ttl_ms) now

unfoldable pub is_expired : ℕ → RoomState → Outcome Bool
is_expired now s = pass (past_ttl s.config s.empty_at (is_idle s) now)

-- What `leaveRoom` hands to the meter.
pub record ParticipantSessionUsage : Type 0 where
  pub org : String
  pub room : String
  pub participant_id : String
  pub session_id : String
  pub joined_at : ℕ
  pub left_at : ℕ
  pub published_audio : Bool
  pub published_video : Bool
  pub egress_bytes : Option ℕ

abbrev pub usage : ℕ → RoomConfig → Participant → ParticipantSessionUsage
usage left_at config p = record {
  org = config.org;
  room = config.room_id;
  participant_id = p.participant_id;
  session_id = p.session_id;
  joined_at = p.joined_at;
  left_at = left_at;
  published_audio = p.published_audio;
  published_video = p.published_video;
  egress_bytes = none;
}

-- `leaveRoom` for the participant that it finds. The clock is read a second time after the save, as
-- `later`.
unfoldable pub leave_found :
    Option Participant
    → RoomConfig
    → ℕ
    → ℕ
    → String
    → RoomState
    → Outcome (Option ParticipantSessionUsage)
unfolding unseat
leave_found none config now later pid s = pass none
leave_found (some p) config now later pid s =
    save (unseat now pid p.session_id s) (some (usage later config p))

unfoldable pub leave_bound :
    Option RoomConfig
    → ℕ
    → ℕ
    → String
    → String
    → RoomState
    → Outcome (Option ParticipantSessionUsage)
unfolding leave_found
leave_bound none now later org pid s = pass none
leave_bound (some config) now later org pid s =
    if str_eq config.org org
    then leave_found (get pid s.participants) config now later pid s
    else throw (room_org_mismatch 403)

unfoldable pub leave_room :
    ℕ → ℕ → String → String → RoomState → Outcome (Option ParticipantSessionUsage)
unfolding leave_bound
leave_room now later org pid s = leave_bound s.config now later org pid s
