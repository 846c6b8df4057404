-- ===== src/Room/Tests.antt =====
-- The theorems on RoomCore at concrete rooms.
use wave_realtime_edge.Common.{
  inr, eq_iff, ℕ, ◌+◌, String, ◌≡◌, refl, ◌≢◌, ◌⊎◌, true, false, none, some, List, [], ◌∷◌, arith,
  keep, get, put, del, includes, without,
}
use wave_realtime_edge.Room.State.{
  AdmissionPolicy, WaitingEntry, Participant, RoomTrack, RoomConfig, RoomState, empty_state,
  normalize_state, to_stored, speaker, viewer, knock, audio, video,
}
use wave_realtime_edge.Room.Core.{
  after, bound_to, ensure_room, JoinRequest, seat, join_guard, join_room, AdmissionRequest,
  bad_capacity, admission_guard, admission_check, room_org_mismatch, participant_banned, throw,
  pass, save,
}
use wave_realtime_edge.Room.Admin.{
  set_capacity, negative, admit_entry, admit, is_idle, deny_entry, deny, lock, drop_session, unseat,
  eject_found, eject, deny_record, ban, is_expired, ParticipantSessionUsage, leave_room,
}
use wave_realtime_edge.Room.Tracks.{TrackRequest, register_found, register_track, reconcile_tracks}
use wave_realtime_edge.Room.Store.{RoomCore, load_from, Call, apply, apply_all, ok, err}
use wave_realtime_edge.Room.Banned.{ban_forever, ban_of_admitted-is_expired}
use wave_realtime_edge.Room.Isolation.{bound_room-refuses_foreign}
use wave_realtime_edge.Room.Capacity.{IsWithin, capacity_kept}
use wave_realtime_edge.Room.Lock.{lock-keeps_out}
use wave_realtime_edge.Room.Clock.{idle_expires, last_knock, ban_of_last_knock-is_expired}
use wave_realtime_edge.Room.Seats.{
  IsWellFormed, reported, apply_all-IsWellFormed, rest_of, reconcile_tracks_lem,
}
use wave_realtime_edge.Room.Durable.{
  Event, served, evicted, run, calls_of, answers, Represents, run-answers,
}
use wave_realtime_edge.Room.Serve.{Reply, method}
use wave_realtime_edge.Room.Knock.{held, admission_check-knock, admit_once}
use wave_realtime_edge.Room.Usage.{billed_kind, leave_room-reports}

abbrev acme : RoomConfig
acme = record { room_id = "r1"; org = "acme"; ttl_ms = some 1000; room_type = none }

abbrev strict : AdmissionPolicy
strict = record {
  mode = knock;
  locked = false;
  capacity = some 3;
  default_role = speaker;
  allow_anonymous = false;
}

abbrev ann : Participant
ann = record {
  participant_id = "ann";
  session_id = "s1";
  role = speaker;
  permissions = record { can_publish = true; can_subscribe = true };
  joined_at = 5;
  published_audio = false;
  published_video = false;
}

abbrev microphone : RoomTrack
microphone = record {
  track_name = "mic";
  session_id = "s1";
  participant_id = "ann";
  kind = audio;
  last_seen_at = 7;
}

abbrev bob_knocks : WaitingEntry
bob_knocks = record { participant_id = "bob"; role = viewer; requested_at = 6 }

-- Ann is seated and publishes, Bob waits.
abbrev meeting : RoomState
meeting = record {
  config = some acme;
  participants = ("ann", ann) ∷ [];
  tracks = ("mic", microphone) ∷ [];
  empty_at = none;
  policy = some strict;
  waiting = ("bob", bob_knocks) ∷ [];
  banned = [];
  admitted = [];
}

abbrev join_of : String → JoinRequest
join_of pid = record { participant_id = pid; session_id = "s2"; role = none; permissions = none }

abbrev knock_of : String → AdmissionRequest
knock_of pid = record { participant_id = pid; role = none; anon = none }

ban_forever_example :
    (get "bob" (after (ban 9 "bob" meeting) meeting).participants ≡ none)
    × (get "bob" (after (ban 9 "bob" meeting) meeting).waiting ≡ none)
    × (join_room 10 "acme" (join_of "bob") (after (ban 9 "bob" meeting) meeting)
        ≡ throw participant_banned)
unfolding apply_all ban eject eject_found deny_record get
ban_forever_example =
    ban_forever 9 meeting [] 10 (join_of "bob") acme (λ e. cc) refl (λ e. cc) (λ e. cc)

ban_of_admitted-is_expired_example :
    is_expired 5000 (
      apply_all (Call.end_room 20 ∷ []) (
        after
          (ban 9 "bob" (after (admit "bob" meeting) meeting))
          (after (admit "bob" meeting) meeting)))
    ≡ pass false
unfolding admit admit_entry includes get
ban_of_admitted-is_expired_example =
    ban_of_admitted-is_expired 9 "bob" (after (admit "bob" meeting) meeting) (Call.end_room 20 ∷ [])
      5000 (λ e. cc) refl

abbrev foreign : RoomConfig
foreign = record { room_id = "r1"; org = "evil"; ttl_ms = none; room_type = none }

acme_ne_evil : acme.org ≢ foreign.org
acme_ne_evil e = let wrong : false ≡ true = (eq_iff "acme" "evil").1 e in cc

abbrev meeting_after : RoomState
meeting_after = apply_all (Call.lock ∷ []) meeting

bound_room-refuses_foreign_example :
    (meeting_after.config ≡ some acme)
    × ((now : ℕ) (p : JoinRequest)
        → join_room now "evil" p meeting_after ≡ throw (room_org_mismatch 403))
    × ((now : ℕ) (p : AdmissionRequest)
        → admission_check now "evil" p meeting_after ≡ throw (room_org_mismatch 403))
    × ((now later : ℕ) (pid : String)
        → leave_room now later "evil" pid meeting_after ≡ throw (room_org_mismatch 403))
    × ((now : ℕ) (t : TrackRequest)
        → register_track now "evil" t meeting_after ≡ throw (room_org_mismatch 403))
    × (ensure_room foreign meeting_after ≡ throw (room_org_mismatch 409))
bound_room-refuses_foreign_example =
    bound_room-refuses_foreign acme "evil" meeting (Call.lock ∷ []) foreign acme_ne_evil refl refl
      refl

capacity_kept_example :
    IsWithin 3 (apply_all (Call.admit "bob" ∷ Call.join_room 8 "acme" (join_of "bob") ∷ []) meeting)
capacity_kept_example =
    capacity_kept 3 meeting (Call.admit "bob" ∷ Call.join_room 8 "acme" (join_of "bob") ∷ [])
      ((λ e. cc), refl, omega arith) (λ m e. cc, (λ m e. cc, tt))

lock-keeps_out_example :
    get "bob"
      (apply_all
        (Call.join_room 8 "acme" (join_of "bob") ∷ [])
        (after (lock meeting) meeting)).participants
    ≡ none
unfolding get
lock-keeps_out_example =
    lock-keeps_out "bob" meeting (Call.join_room 8 "acme" (join_of "bob") ∷ []) (λ e. cc) (λ e. cc)
      refl ((λ e. cc), tt)

abbrev emptied : List Call
emptied = Call.deny 9 "bob" ∷ Call.eject 10 "ann" ∷ []

idle_expires_example :
    (deadline : ℕ) × ((d : ℕ) → is_expired (deadline + d) (apply_all emptied meeting) ≡ pass true)
unfolding apply_all apply deny deny_entry eject eject_found unseat drop_session get del keep without
idle_expires_example =
    idle_expires meeting emptied (λ e. cc) (λ now pid e. cc, (λ now pid e. cc, tt)) (λ e. cc) refl

ban_of_last_knock-is_expired_example :
    let s = last_knock acme [] (some strict) [] "bob" bob_knocks in
    (is_expired 2000 (after (deny 9 "bob" s) s) ≡ pass true)
    × (is_idle (after (ban 9 "bob" s) s) ≡ true)
    × ((any : ℕ) → is_expired any (after (ban 9 "bob" s) s) ≡ pass false)
ban_of_last_knock-is_expired_example =
    ban_of_last_knock-is_expired 9 "bob" acme bob_knocks [] (some strict) [] 2000 (omega arith)

abbrev calls : List Call
calls = Call.ensure_room acme ∷ Call.join_room 3 "acme" (join_of "ann") ∷ []

apply_all-IsWellFormed_example : IsWellFormed (apply_all calls (empty_state 1))
apply_all-IsWellFormed_example = apply_all-IsWellFormed 1 calls

meeting-IsWellFormed : IsWellFormed meeting
unfolding get
meeting-IsWellFormed = ((refl, refl, tt), (refl, refl, tt), (refl, refl, tt))

reconcile_tracks_lem_example :
    let s' = after (reconcile_tracks 40000 meeting) meeting in
    (get "mic" s'.tracks ≡ none)
    × (includes (reported (reconcile_tracks 40000 meeting)) "mic" ≡ true)
    × (get "cam" s'.tracks ≡ none)
    × (rest_of s' ≡ rest_of meeting)
unfolding get
reconcile_tracks_lem_example =
    reconcile_tracks_lem 40000 meeting "mic" "cam" microphone meeting-IsWellFormed refl refl

abbrev object : RoomCore
object = record { state = some meeting; stored = some (to_stored meeting) }

-- Two calls with an eviction between them, and one that is refused before the state is loaded.
abbrev events : List Event
events =
    served 1 Call.lock
    ∷ evicted
    ∷ served 2 (Call.set_capacity (some negative))
    ∷ served 3 (Call.ban 9 "ann")
    ∷ []

run-answers_example :
    ((run events object).1 ≡ answers (calls_of events) meeting)
    × Represents (apply_all (calls_of events) meeting) (run events object).0
unfolding load_from normalize_state to_stored
run-answers_example = run-answers events meeting object (λ now. refl, inr refl)

answers_of_events :
    answers (calls_of events) meeting
    ≡ ok Reply.done ∷ err bad_capacity ∷ ok (Reply.of_id (some "s1")) ∷ []
unfolding answers calls_of method apply set_capacity lock ban eject eject_found deny_record get
answers_of_events = refl

admission_check-knock_example :
    ((includes meeting.admitted "bob" ≡ true)
      × (admission_check 8 "acme" (knock_of "bob") meeting ≡ pass none))
    ⊎ ((includes meeting.admitted "bob" ≡ false)
        × (admission_check 8 "acme" (knock_of "bob") meeting
            ≡ held 8 (knock_of "bob") strict meeting))
unfolding admission_guard includes
admission_check-knock_example =
    admission_check-knock 8 "acme" (knock_of "bob") meeting (strict, refl, refl, refl) refl

abbrev bob : Participant
bob = record {
  participant_id = "bob";
  session_id = "s2";
  role = speaker;
  permissions = record { can_publish = true; can_subscribe = true };
  joined_at = 8;
  published_audio = false;
  published_video = false;
}

-- The room once Bob has joined.
abbrev meeting_bob : RoomState
meeting_bob = record meeting { participants = ("ann", ann) ∷ ("bob", bob) ∷ []; waiting = [] }

admit_once_example :
    let s' = after (admit "bob" meeting) meeting in
    (includes s'.admitted "bob" ≡ true)
    × (admission_check 7 "acme" (knock_of "bob") s' ≡ pass none)
    × (includes meeting_bob.admitted "bob" ≡ false)
    × (admission_check 9 "acme" (knock_of "bob") meeting_bob
        ≡ held 9 (knock_of "bob") strict meeting_bob)
unfolding admission_guard admit admit_entry includes join_room join_guard seat get put del without
    apply_all
admit_once_example =
    admit_once "acme" meeting (join_of "bob") (knock_of "bob") 7 [] 8 meeting_bob bob
      (knock_of "bob") 9 (strict, refl, refl, refl) (λ e. cc) refl (strict, refl, refl, refl) refl
      refl refl refl

abbrev camera : TrackRequest
camera = record { track_name = "cam"; session_id = "s1"; participant_id = "ann"; kind = video }

-- The room once Ann publishes her camera.
abbrev meeting_camera : RoomState
meeting_camera = record meeting {
  participants = ("ann", record ann { published_video = true }) ∷ [];
  tracks =
      ("mic", microphone)
      ∷ (
        "cam",
        record {
          track_name = "cam";
          session_id = "s1";
          participant_id = "ann";
          kind = video;
          last_seen_at = 9;
        },
      )
      ∷ [];
}

abbrev camera_track : RoomTrack
camera_track = record {
  track_name = "cam";
  session_id = "s1";
  participant_id = "ann";
  kind = video;
  last_seen_at = 9;
}

leave_room-reports_example :
    (left : RoomState) × (u : ParticipantSessionUsage) × (leave_room 50 51 "acme" "ann"
        (apply_all (Call.unregister_track "cam" ∷ []) meeting_camera)
      ≡ save left (some u))
    × (billed_kind video u ≡ true)
unfolding register_track register_found bound_to get put
leave_room-reports_example =
    leave_room-reports 9 "acme" camera meeting meeting_camera camera_track acme
      (Call.unregister_track "cam" ∷ []) 50 51 refl refl refl (refl, tt)
