-- ===== src/Room/Change.antt =====
-- The changes that a call of RoomCore can make to the state, as a step relation: what an invariant
-- of the room has to survive.
use wave_realtime_edge.Common.{
  eq_refl, All, ℕ, String, Bool, true, false, Option, none, some, List, [], ◌∷◌, ◌≡◌, ◌≢◌, inl, inr,
  refl, arith, get, put, del, if◌then◌else◌, str_eq, ◌&&◌,
}
use wave_realtime_edge.Room.State.{
  is_room_type, RoomConfig, RoomState, AdmissionPolicy, policy_defaults, Role, Participant,
  RoomTrack, WaitingEntry,
}
use wave_realtime_edge.Room.Core.{
  bad_room_type, after, JoinRequest, AdmissionRequest, policy_of, apply_type, bind, bound_to,
  type_known, seat, join_guard, join_room-cases, enqueue, admission_guard, admission_check-cases,
  ensure_room, Outcome, throw, bad_capacity,
}
use wave_realtime_edge.Room.Admin.{
  JsNumber, admit, deny, admit_entry, deny_entry, eject_found, leave_found, leave_bound, unseat,
  deny_record, end_room, lock, unlock, set_capacity, eject, ban, leave_room, with_policy, saved,
  safe_natural,
}
use wave_realtime_edge.Room.Tracks.{
  TrackRequest, mark, live_tracks, register_track, touch_track, unregister_track, reconcile_tracks,
  stale_names, register_found, touch_found, unregister_found, save_if_removed,
}
use wave_realtime_edge.Room.Store.{Call, apply, apply_all, unseats}

pub data Change (c : Call) (s : RoomState) : RoomState → Type 0 where
  stay : Change c s s
  bound :
      (config : RoomConfig) (t : Option String)
      → type_known t ≡ true
      → s.config ≡ none
      → Change c s (record s { config = some config; policy = policy_of t s.policy })
  typed : (t : String) → s.policy ≡ none → Change c s (record s { policy = get t policy_defaults })
  seated :
      (now : ℕ) (org : String) (p : JoinRequest)
      → c ≡ Call.join_room now org p
      → join_guard org p s ≡ none
      → Change c s (after (seat now p s) s)
  queued :
      (now : ℕ) (org : String) (p : AdmissionRequest) (role : Role)
      → admission_guard org p s ≡ none
      → Change c s (after (enqueue now p.participant_id role s) s)
  admitted :
      (pid : String) (w : WaitingEntry)
      → get pid s.waiting ≡ some w
      → Change c s (after (admit_entry (some w) pid s) s)
  denied :
      (now : ℕ) (pid : String) (w : WaitingEntry)
      → get pid s.waiting ≡ some w
      → Change c s (after (deny_entry (some w) now pid s) s)
  locked :
      (p : AdmissionPolicy)
      → s.policy ≡ some p
      → Change c s (record s { policy = some (record p { locked = true }) })
  unlocked :
      (p : AdmissionPolicy)
      → c ≡ Call.unlock
      → s.policy ≡ some p
      → Change c s (record s { policy = some (record p { locked = false }) })
  resized :
      (p : AdmissionPolicy) (n : Option JsNumber) (capacity : Option ℕ)
      → c ≡ Call.set_capacity n
      → s.policy ≡ some p
      → Change c s (record s { policy = some (record p { capacity = capacity }) })
  unseated :
      (now : ℕ) (pid : String) (p : Participant)
      → unseats c pid ≡ true
      → get pid s.participants ≡ some p
      → Change c s (unseat now pid p.session_id s)
  banned : (now : ℕ) (pid : String) → c ≡ Call.ban now pid → Change c s (deny_record pid s)
  ended :
      (now : ℕ) → ((pid : String) → unseats c pid ≡ true) → Change c s (after (end_room now s) s)
  published :
      (t : TrackRequest) (owner : Participant) (track : RoomTrack)
      → get t.participant_id s.participants ≡ some owner
      → track.track_name ≡ t.track_name
      → Change c s (record s {
        tracks = put t.track_name track s.tracks;
        participants = put t.participant_id (mark t.kind owner) s.participants;
      })
  touched :
      (name : String) (t : RoomTrack)
      → get name s.tracks ≡ some t
      → (now : ℕ)
      → Change c s (record s { tracks = put name (record t { last_seen_at = now }) s.tracks })
  unpublished : (name : String) → Change c s (record s { tracks = del name s.tracks })
  reconciled : (now : ℕ) → Change c s (record s { tracks = live_tracks now s.tracks })

-- One call is at most two changes: `ban` records the ban, and then ejects.
pub data Changes (c : Call) (s : RoomState) : RoomState → Type 0 where
  once : {t : RoomState} → Change c s t → Changes c s t
  twice : {t u : RoomState} → Change c s t → Change c t u → Changes c s u

module _ (c : Call) (s : RoomState) where
  if-Change {ℓ} :
      {A : Type ℓ} (b : Bool) (x y : Outcome A)
      → Change c s (after x s)
      → Change c s (after y s)
      → Change c s (after (if b then x else y) s)
  if-Change true x y h k = h
  if-Change false x y h k = k

  bind-Change :
      (o : Option RoomConfig) (config : RoomConfig)
      → type_known config.room_type ≡ true
      → s.config ≡ o
      → Change c s (after (bind o config s) s)
  unfolding bind
  bind-Change none config k e = bound _ config.room_type k e
  bind-Change (some old) config k e =
      if-Change (str_eq old.org config.org && str_eq old.room_id config.room_id) _ _
        (typing config.room_type s.policy refl) stay
    where
      typing :
          (t : Option String) (p : Option AdmissionPolicy)
          → s.policy ≡ p
          → Change c s (after (apply_type t p old s) s)
      typing none p q = stay
      typing (some t) none q = typed t q
      typing (some t) (some p) q = stay

  ensure_room-Change : (config : RoomConfig) → Change c s (after (ensure_room config s) s)
  ensure_room-Change config = unfold ensure_room in go (type_known config.room_type) refl
    where
      go :
          (b : Bool)
          → type_known config.room_type ≡ b
          → Change c s (after (if b then bind s.config config s else throw bad_room_type) s)
      go true e = bind-Change s.config config e refl
      go false e = stay

  eject_found-Change :
      (o : Option Participant) (now : ℕ) (pid : String)
      → unseats c pid ≡ true
      → get pid s.participants ≡ o
      → Change c s (after (eject_found o now pid s) s)
  unfolding eject_found
  eject_found-Change none now pid u e = stay
  eject_found-Change (some p) now pid u e = unfold unseat in unseated now pid p u e

  reconcile-Change :
      (now : ℕ) (names : List String)
      → Change c s
          (after (save_if_removed names (record s { tracks = live_tracks now s.tracks })) s)
  reconcile-Change now [] = stay
  reconcile-Change now (n ∷ ns) = reconciled now

  leave_bound-Change :
      (o : Option RoomConfig) (now later : ℕ) (org pid : String)
      → unseats c pid ≡ true
      → Change c s (after (leave_bound o now later org pid s) s)
  unfolding leave_bound
  leave_bound-Change none now later org pid u = stay
  leave_bound-Change (some config) now later org pid u =
      if-Change (str_eq config.org org) _ _ (found (get pid s.participants) refl) stay
    where
      found :
          (o : Option Participant)
          → get pid s.participants ≡ o
          → Change c s (after (leave_found o config now later pid s) s)
      found none e = stay
      found (some p) e = unseated now pid p u e

  with_policy-Change :
      (o : Option AdmissionPolicy) (f : AdmissionPolicy → AdmissionPolicy)
      → ((p : AdmissionPolicy) → o ≡ some p → Change c s (record s { policy = some (f p) }))
      → Change c s (after (with_policy o f s) s)
  with_policy-Change none f k = stay
  with_policy-Change (some p) f k = k p refl

  admit_entry-Change :
      (o : Option WaitingEntry) (pid : String)
      → get pid s.waiting ≡ o
      → Change c s (after (admit_entry o pid s) s)
  unfolding admit_entry
  admit_entry-Change none pid e = stay
  admit_entry-Change (some w) pid e = admitted pid w e

  deny_entry-Change :
      (o : Option WaitingEntry) (now : ℕ) (pid : String)
      → get pid s.waiting ≡ o
      → Change c s (after (deny_entry o now pid s) s)
  unfolding deny_entry
  deny_entry-Change none now pid e = stay
  deny_entry-Change (some w) now pid e = denied now pid w e

  register_track-Change :
      (o : Option RoomConfig) (q : Option Participant) (now : ℕ) (org : String) (t : TrackRequest)
      → get t.participant_id s.participants ≡ q
      → Change c s (after (bound_to o org (register_found q now t s)) s)
  unfolding bound_to register_found
  register_track-Change none q now org t e = stay
  register_track-Change (some config) none now org t e =
      if-Change (str_eq config.org org) _ _ stay stay
  register_track-Change (some config) (some owner) now org t e =
      if-Change (str_eq config.org org) _ _
        (if-Change (str_eq t.track_name "") _ _ stay (published t owner _ e refl)) stay

  touch_found-Change :
      (o : Option RoomTrack) (now : ℕ) (name : String)
      → get name s.tracks ≡ o
      → Change c s (after (touch_found o now name s) s)
  unfolding touch_found
  touch_found-Change none now name e = stay
  touch_found-Change (some t) now name e = touched name t e now

  unregister_found-Change :
      (o : Option RoomTrack) (name : String) → Change c s (after (unregister_found o name s) s)
  unfolding unregister_found
  unregister_found-Change none name = stay
  unregister_found-Change (some t) name = unpublished name

set_capacity-Change :
    (n : Option JsNumber) (s : RoomState)
    → Change (Call.set_capacity n) s (after (set_capacity n s) s)
unfolding set_capacity
set_capacity-Change none s = with_policy-Change _ s s.policy _ (λ p e. resized p none none refl e)
set_capacity-Change (some n) s = go (safe_natural n)
  where
    go :
        (m : Option ℕ)
        → Change (Call.set_capacity (some n)) s (
            after
              (elim m [
                | none ↦ throw bad_capacity
                | some c ↦ with_policy s.policy (λ p. record p { capacity = some c }) s
              ])
              s)
    go none = stay
    go (some c) = with_policy-Change _ s s.policy _ (λ p e. resized p (some n) (some c) refl e)

saved-Changes :
    (now : ℕ) (pid : String) (s : RoomState) (o : Option Participant)
    → get pid (deny_record pid s).participants ≡ o
    → Changes
        (Call.ban now pid)
        s
        (after (saved (deny_record pid s) (eject_found o now pid (deny_record pid s))) s)
unfolding eject_found
saved-Changes now pid s none e = once (banned now pid refl)
saved-Changes now pid s (some p) e =
    twice (banned now pid refl) (unseated now pid p (eq_refl pid) e)

-- Each call makes such changes.
pub apply-Changes : (c : Call) (s : RoomState) → Changes c s (apply c s)
unfolding apply
apply-Changes (Call.ensure_room config) s = once (ensure_room-Change _ s config)
apply-Changes (Call.join_room now org p) s = elim (join_room-cases now org p s) [
  | inl e ↦ rw e (once stay)
  | inr (g, e) ↦ rw e (once (seated now org p refl g))
]
apply-Changes (Call.admission_check now org p) s = elim (admission_check-cases now org p s) [
  | inl e ↦ rw e (once stay)
  | inr (g, role, e) ↦ rw e (once (queued now org p role g))
]
apply-Changes (Call.admit pid) s = unfold admit in once (admit_entry-Change _ s _ pid refl)
apply-Changes (Call.deny now pid) s = unfold deny in once (deny_entry-Change _ s _ now pid refl)
apply-Changes Call.lock s = unfold lock in once (with_policy-Change _ s s.policy _ locked)
apply-Changes Call.unlock s =
    unfold unlock in once (with_policy-Change _ s s.policy _ (λ p e. unlocked p refl e))
apply-Changes (Call.set_capacity n) s = once (set_capacity-Change n s)
apply-Changes (Call.eject now pid) s =
    unfold eject in once (eject_found-Change _ s _ now pid (eq_refl pid) refl)
apply-Changes (Call.ban now pid) s = unfold ban eject in saved-Changes now pid s _ refl
apply-Changes (Call.end_room now) s = once (ended now (λ pid. refl))
apply-Changes (Call.leave_room now later org pid) s =
    unfold leave_room in once (leave_bound-Change _ s s.config now later org pid (eq_refl pid))
apply-Changes (Call.register_track now org t) s =
    unfold register_track in once (register_track-Change _ s s.config _ now org t refl)
apply-Changes (Call.touch_track now name) s =
    unfold touch_track in once (touch_found-Change _ s _ now name refl)
apply-Changes (Call.unregister_track name) s =
    unfold unregister_track in once (unregister_found-Change _ s (get name s.tracks) name)
apply-Changes (Call.reconcile_tracks now) s =
    unfold reconcile_tracks in once (reconcile-Change _ s now (stale_names now s.tracks))

-- What every change by a call that `allowed` admits keeps, a sequence of such calls keeps.
pub apply_all_inv {ℓ κ} :
    (P : RoomState → Type ℓ) (allowed : Call → Type κ)
    → ((c : Call) (s t : RoomState) → allowed c → Change c s t → P s → P t)
    → (cs : List Call) (s : RoomState) → All allowed cs
    → P s
    → P (apply_all cs s)
unfolding apply_all
apply_all_inv P allowed keep [] s h p = p
apply_all_inv P allowed keep (c ∷ cs) s (h, hs) p =
    apply_all_inv P allowed keep cs (apply c s) hs (both (apply-Changes c s))
  where
    both : {t : RoomState} → Changes c s t → P t
    both (once a) = keep c s _ h a p
    both (twice {t} a b) = keep c t _ h b (keep c s t h a p)

-- The same for an invariant that every call keeps.
pub apply_all_always {ℓ} :
    (P : RoomState → Type ℓ)
    → ((c : Call) (s t : RoomState) → Change c s t → P s → P t)
    → (cs : List Call) (s : RoomState) → P s
    → P (apply_all cs s)
apply_all_always P keep cs s p =
    apply_all_inv P (λ c. Unit {0}) (λ c s t _. keep c s t) cs s (all cs) p
  where
    all : (cs : List Call) → All (λ c. Unit {0}) cs
    all [] = tt
    all (c ∷ cs) = (tt, all cs)

-- A known type has a policy.
pub policy_of-ne_none :
    (t : Option String) (p : Option AdmissionPolicy)
    → type_known t ≡ true
    → p ≢ none
    → policy_of t p ≢ none
unfolding is_room_type get
policy_of-ne_none none p k h = h
policy_of-ne_none (some t) p k h = ground arith
