-- ===== src/Room/Clock.antt =====
-- The life time of a room: `emptyAt` and RoomCore.isExpired.
use wave_realtime_edge.Common.{
  eq_refl, without, ap, ℕ, ◌+◌, ◌≤◌, ◌<◌, String, true, false, Option, none, some, List, [], ◌∷◌,
  ◌≡◌, ◌≢◌, refl, arith, All, length, get, del, includes, length-put-pos, length_pos_of_includes,
  length-append, Bool-cases, inl, inr, Dict,
}
use wave_realtime_edge.Room.State.{
  AdmissionPolicy, RoomTrack, RoomConfig, RoomState, Participant, WaitingEntry, default_room_ttl_ms,
}
use wave_realtime_edge.Room.Core.{pass, after, seat, enqueue, or_default}
use wave_realtime_edge.Room.Admin.{
  admit_entry, deny, deny_entry, unseat, deny_record, end_room, is_idle, is_expired, past_ttl,
  empty_clock, ban, eject,
}
use wave_realtime_edge.Room.Store.{Call, apply_all}
use wave_realtime_edge.Room.Change.{
  Change, stay, bound, typed, seated, queued, admitted, denied, locked, unlocked, resized, unseated,
  banned, ended, published, touched, unpublished, reconciled, apply_all_inv,
}

-- An idle room has a running clock.
abbrev pub IsTimed : RoomState → Type 0
IsTimed s = is_idle s ≡ true → s.empty_at ≢ none

not_idle_seated : (s : RoomState) → 0 < length s.participants → is_idle s ≡ true → ⊥
not_idle_seated s h i = ground arith

not_idle_waiting : (s : RoomState) → 0 < length s.waiting → is_idle s ≡ true → ⊥
not_idle_waiting s h i = ground arith

admitted-IsTimed :
    (x : String) (w : WaitingEntry) (s : RoomState) → IsTimed (after (admit_entry (some w) x s) s)
unfolding admit_entry
admitted-IsTimed x w s i = elim (Bool-cases (includes s.admitted x)) [
  | inl e ↦ absurd (ground (arith, length_pos_of_includes s.admitted x e))
  | inr e ↦ absurd (ground (arith, length-append s.admitted (x ∷ [])))
]

denied-IsTimed :
    (now : ℕ) (x : String) (w : WaitingEntry) (s : RoomState)
    → IsTimed s
    → IsTimed (after (deny_entry (some w) now x s) s)
unfolding deny_entry
denied-IsTimed now x w s h i = ground arith

unseat-IsTimed :
    (now : ℕ) (x session_id : String) (s : RoomState) → IsTimed (unseat now x session_id s)
unfolding unseat
unseat-IsTimed now x session_id s i = go (del x s.participants) (ground arith)
  where
    go : (m : Dict Participant) → length m ≡ 0 → empty_clock now m s.empty_at ≢ none
    go [] e = λ z. cc
    go (x ∷ m) e = absurd (omega arith)

Change-IsTimed :
    (c : Call) (s t : RoomState)
    → ((now : ℕ) (pid : String) → c ≢ Call.ban now pid)
    → Change c s t
    → IsTimed s
    → IsTimed t
unfolding seat enqueue end_room
Change-IsTimed c s t a stay h = h
Change-IsTimed c s t a (bound x y k e) h = h
Change-IsTimed c s t a (typed y e) h = h
Change-IsTimed c s t a (seated now org p e g) h =
    λ i. absurd (not_idle_seated t (length-put-pos p.participant_id _ s.participants) i)
Change-IsTimed c s t a (queued now org p role g) h =
    λ i. absurd (not_idle_waiting t (length-put-pos p.participant_id _ s.waiting) i)
Change-IsTimed c s t a (admitted x v e) h = admitted-IsTimed x v s
Change-IsTimed c s t a (denied now x v e) h = denied-IsTimed now x v s h
Change-IsTimed c s t a (locked p e) h = h
Change-IsTimed c s t a (unlocked p e r) h = h
Change-IsTimed c s t a (resized p m k e r) h = h
Change-IsTimed c s t a (unseated now x p u e) h = unseat-IsTimed now x p.session_id s
Change-IsTimed c s t a (banned now x e) h = absurd (a now x e)
Change-IsTimed c s t a (ended now u) h = λ i z. cc
Change-IsTimed c s t a (published r owner track e m) h =
    λ i. absurd (not_idle_seated t (length-put-pos r.participant_id _ s.participants) i)
Change-IsTimed c s t a (touched name r e now) h = h
Change-IsTimed c s t a (unpublished name) h = h
Change-IsTimed c s t a (reconciled now) h = h

expires :
    (c : Option RoomConfig) (t : Option ℕ)
    → c ≢ none
    → t ≢ none
    → (deadline : ℕ) × ((now : ℕ) → deadline ≤ now → past_ttl c t true now ≡ true)
expires none t a b = absurd (a refl)
expires (some c) none a b = absurd (b refl)
expires (some c) (some t) a b = (t + or_default c.ttl_ms default_room_ttl_ms, λ now h. ground arith)

-- From a state in which an idle room has a running clock, after any calls that do not include a ban:
-- if the room is then bound and idle (nobody seated, waiting or admitted), there is a time from which
-- on `isExpired` answers true.
pub idle_expires :
    (s : RoomState) (cs : List Call)
    → IsTimed s
    → All (λ c. (now : ℕ) (pid : String) → c ≢ Call.ban now pid) cs
    → (apply_all cs s).config ≢ none
    → is_idle (apply_all cs s) ≡ true
    → (deadline : ℕ) × ((d : ℕ) → is_expired (deadline + d) (apply_all cs s) ≡ pass true)
unfolding is_expired
idle_expires s cs h a b i =
    let s' = apply_all cs s in
    let timed : IsTimed s' =
      apply_all_inv IsTimed (λ c. (now : ℕ) (pid : String) → c ≢ Call.ban now pid)
        (λ c s t. Change-IsTimed c s t) cs s a h in
    let (deadline, after_it) = expires s'.config s'.empty_at b (timed i) in
    (deadline, λ d. rw i (ap pass (after_it (deadline + d) (omega arith))))

-- A bound room that only a waiting participant keeps alive: the clock is off.
abbrev pub last_knock :
    RoomConfig
    → Dict RoomTrack
    → Option AdmissionPolicy
    → List String
    → String
    → WaitingEntry
    → RoomState
last_knock config tracks policy deny_list pid w = record {
  config = some config;
  participants = [];
  tracks = tracks;
  empty_at = none;
  policy = policy;
  waiting = (pid, w) ∷ [];
  banned = deny_list;
  admitted = [];
}

deny_of_last :
    (now : ℕ) (pid : String) (config : RoomConfig) (w : WaitingEntry) (tracks : Dict RoomTrack)
    (policy : Option AdmissionPolicy) (deny_list : List String)
    → let s = last_knock config tracks policy deny_list pid w in
      after (deny now pid s) s ≡ record s { waiting = []; empty_at = some now }
unfolding deny get del without
deny_of_last now pid config w tracks policy deny_list = simp (eq_refl pid)

-- In a bound room that only one waiting participant keeps alive, a ban of that participant and a
-- denial both leave the room idle. After the denial at `now` the room expires one time to live later;
-- after the ban it does not expire at any time.
pub ban_of_last_knock-is_expired :
    (now : ℕ) (pid : String) (config : RoomConfig) (w : WaitingEntry) (tracks : Dict RoomTrack)
    (policy : Option AdmissionPolicy) (deny_list : List String) (at : ℕ)
    → now + or_default config.ttl_ms default_room_ttl_ms ≤ at
    → let s = last_knock config tracks policy deny_list pid w in
      (is_expired at (after (deny now pid s) s) ≡ pass true)
      × (is_idle (after (ban now pid s) s) ≡ true)
      × ((any : ℕ) → is_expired any (after (ban now pid s) s) ≡ pass false)
unfolding is_expired ban eject deny_record get del
ban_of_last_knock-is_expired now pid config w tracks policy deny_list at h = (
  rw (deny_of_last now pid config w tracks policy deny_list) (ap pass (ground arith)),
  rw (eq_refl pid) refl,
  λ any. refl,
)
