-- ===== src/Room/Usage.antt =====
-- What a leaving participant is billed for: RoomCore.registerTrack and leaveRoom.
use mathlib.Core.Option.{some-injective}
use wave_realtime_edge.Common.{
  sym, subst, get-put, ℕ, String, Bool, true, false, Option, none, some, List, ◌≡◌, ◌≢◌, refl,
  arith, All, ◌∙◌, get, put, get-put_ne, get-put_self, get-del_ne, eq_iff, str_eq, Bool-cases, inl,
  inr,
}
use wave_realtime_edge.Room.State.{
  RoomConfig, RoomState, TrackKind, audio, video, Participant, RoomTrack,
}
use wave_realtime_edge.Room.Core.{bound_to, JoinRequest, save, seat, enqueue}
use wave_realtime_edge.Room.Admin.{
  admit_entry, deny_entry, unseat, deny_record, end_room, leave_room, ParticipantSessionUsage,
  usage,
}
use wave_realtime_edge.Room.Tracks.{TrackRequest, mark, register_track, register_found}
use wave_realtime_edge.Room.Store.{Call, apply_all, unseats}
use wave_realtime_edge.Room.Isolation.{Change-config}
use wave_realtime_edge.Room.Change.{Change, seated, unseated, ended, published, apply_all_inv}

abbrev pub published_kind : TrackKind → Participant → Bool
published_kind audio p = p.published_audio
published_kind video p = p.published_video

abbrev pub billed_kind : TrackKind → ParticipantSessionUsage → Bool
billed_kind audio u = u.published_audio
billed_kind video u = u.published_video

-- The participant is seated since the given time, and has published a track of the kind since.
abbrev pub HasPublished : TrackKind → String → ℕ → RoomState → Type 0
HasPublished k pid joined_at s =
    (p : Participant) × (get pid s.participants ≡ some p)
    × (published_kind k p ≡ true)
    × (p.joined_at ≡ joined_at)

mark-joined_at : (j : TrackKind) (p : Participant) → (mark j p).joined_at ≡ p.joined_at
mark-joined_at audio p = refl
mark-joined_at video p = refl

mark-published_self : (k : TrackKind) (p : Participant) → published_kind k (mark k p) ≡ true
mark-published_self audio p = refl
mark-published_self video p = refl

mark-published :
    (k j : TrackKind) (p : Participant)
    → published_kind k p ≡ true
    → published_kind k (mark j p) ≡ true
mark-published audio audio p h = refl
mark-published audio video p h = h
mark-published video audio p h = h
mark-published video video p h = refl

-- A call that does not touch the seat is not a join under that id.
ne_of_seat_kept :
    (c : Call) (now : ℕ) (org pid : String) (p : JoinRequest)
    → unseats c pid ≡ false
    → c ≡ Call.join_room now org p
    → p.participant_id ≢ pid
ne_of_seat_kept c now org pid p a e x =
    let same = (eq_iff p.participant_id pid).1 x in
    let other : unseats (Call.join_room now org p) pid ≡ false =
      subst (λ c. unseats c pid ≡ false) e a in
    cc

put-HasPublished :
    (k j : TrackKind) (pid x : String) (joined_at : ℕ) (owner : Participant) (s : RoomState)
    → get x s.participants ≡ some owner
    → HasPublished k pid joined_at s
    → (p : Participant) × (get pid (put x (mark j owner) s.participants) ≡ some p)
      × (published_kind k p ≡ true)
      × (p.joined_at ≡ joined_at)
put-HasPublished k j pid x joined_at owner s e (p, f, g, at) = elim (Bool-cases (str_eq x pid)) [
  | inr n ↦ (p, rw (get-put x pid (mark j owner) s.participants, n) f, g, at)
  | inl q ↦
      let same : p ≡ owner = some-injective _ _ (sym f ∙ (rw (← (eq_iff x pid).0 q) e)) in
      (
        mark j owner,
        rw (get-put x pid (mark j owner) s.participants, q),
        mark-published k j owner (rw (← same) g),
        mark-joined_at j owner ∙ rw (← same) at,
      )
]

Change-HasPublished :
    (k : TrackKind) (pid : String) (joined_at : ℕ) (c : Call) (s t : RoomState)
    → unseats c pid ≡ false
    → Change c s t
    → HasPublished k pid joined_at s
    → HasPublished k pid joined_at t
unfolding seat enqueue admit_entry deny_entry unseat deny_record end_room
Change-HasPublished k pid joined_at c s t a (seated now org p e g) (q, f, h, since) =
    (q, get-put_ne _ _ _ _ (ne_of_seat_kept c now org pid p a e) ∙ f, h, since)
Change-HasPublished k pid joined_at c s t a (unseated now x p u e) (q, f, h, since) =
    let ne : x ≢ pid = λ z. let u' = subst (λ y. unseats c y ≡ true) z u in cc in
    (q, get-del_ne _ _ _ ne ∙ f, h, since)
Change-HasPublished k pid joined_at c s t a (ended now u) h = absurd (cc (u pid))
Change-HasPublished k pid joined_at c s t a (published r owner track e m) h =
    put-HasPublished k r.kind pid r.participant_id joined_at owner s e h
Change-HasPublished k pid joined_at c s t a _ h = h

register_found-HasPublished :
    (c : Option RoomConfig) (o : Option Participant) (now : ℕ) (org : String) (t : TrackRequest)
    (s s' : RoomState) (track : RoomTrack)
    → bound_to c org (register_found o now t s) ≡ save s' track
    → (owner : Participant) × (o ≡ some owner)
      × HasPublished t.kind t.participant_id owner.joined_at s'
unfolding bound_to register_found
register_found-HasPublished none o now org t s s' track e = absurd (cc)
register_found-HasPublished (some c) none now org t s s' track e = absurd (ground arith)
register_found-HasPublished (some c) (some owner) now org t s s' track e = (
  owner,
  refl,
  (
    mark t.kind owner,
    ground (arith, get-put_self t.participant_id (mark t.kind owner) s.participants),
    mark-published_self t.kind owner,
    mark-joined_at t.kind owner,
  ),
)

billed_kind-usage :
    (k : TrackKind) (later : ℕ) (config : RoomConfig) (p : Participant)
    → billed_kind k (usage later config p) ≡ published_kind k p
billed_kind-usage audio later config p = refl
billed_kind-usage video later config p = refl

leave_room-seated :
    (now later : ℕ) (org pid : String) (config : RoomConfig) (p : Participant) (s : RoomState)
    → s.config ≡ some config
    → config.org ≡ org
    → get pid s.participants ≡ some p
    → leave_room now later org pid s
      ≡ save (unseat now pid p.session_id s) (some (usage later config p))
unfolding leave_room unseat
leave_room-seated now later org pid config p s c o f = ground (arith, eq_iff config.org org)

-- What `leaveRoom` returns for a seat that is kept and on which a kind was published.
pub leave_room-kept :
    (k : TrackKind) (pid org : String) (joined_at : ℕ) (s : RoomState) (config : RoomConfig)
    (cs : List Call) (at later : ℕ)
    → s.config ≡ some config
    → config.org ≡ org
    → HasPublished k pid joined_at s
    → All (λ c. unseats c pid ≡ false) cs
    → (left : RoomState) × (u : ParticipantSessionUsage) × (leave_room at later org pid
          (apply_all cs s)
        ≡ save left (some u))
      × (billed_kind k u ≡ true)
      × (u.joined_at ≡ joined_at)
      × (u.left_at ≡ later)
leave_room-kept k pid org joined_at s config cs at later c o h a =
    let s' = apply_all cs s in
    let bound_still : s'.config ≡ some config =
      apply_all_inv (λ s. s.config ≡ some config) _ (λ c s t _. Change-config config c s t) cs s a
        c in
    let (p, f, g, since) =
      apply_all_inv (HasPublished k pid joined_at) _ (Change-HasPublished k pid joined_at) cs s a
        h in
    (
      unseat at pid p.session_id s',
      usage later config p,
      leave_room-seated at later org pid config p s' bound_still o f,
      billed_kind-usage k later config p ∙ g,
      since,
      refl,
    )

pub register_track-HasPublished :
    (now : ℕ) (org : String) (t : TrackRequest) (s s' : RoomState) (track : RoomTrack)
    → register_track now org t s ≡ save s' track
    → (owner : Participant) × (get t.participant_id s.participants ≡ some owner)
      × HasPublished t.kind t.participant_id owner.joined_at s'
unfolding register_track
register_track-HasPublished now org t s s' track e =
    register_found-HasPublished s.config (get t.participant_id s.participants) now org t s s' track
      e

-- Once a track of a kind has been registered for a participant in a bound room, then after any further
-- calls that neither take the participant's seat away nor give it anew (tracks may be unregistered or
-- dropped meanwhile), `leaveRoom` returns a usage record that reports the kind as published.
pub leave_room-reports :
    (now : ℕ) (org : String) (t : TrackRequest) (s s' : RoomState) (track : RoomTrack)
    (config : RoomConfig) (cs : List Call) (at later : ℕ)
    → s'.config ≡ some config
    → config.org ≡ org
    → register_track now org t s ≡ save s' track
    → All (λ c. unseats c t.participant_id ≡ false) cs
    → (left : RoomState) × (u : ParticipantSessionUsage) × (leave_room at later org t.participant_id
          (apply_all cs s')
        ≡ save left (some u))
      × (billed_kind t.kind u ≡ true)
leave_room-reports now org t s s' track config cs at later c o e a =
    let (owner, _, h) = register_track-HasPublished now org t s s' track e in
    let (left, u, f, g, _, _) =
      leave_room-kept t.kind t.participant_id org owner.joined_at s' config cs at later c o h a in
    (left, u, f, g)
