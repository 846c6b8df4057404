-- ===== src/Room/Seats.antt =====
-- The shape of the state of a room: its registries, and RoomCore.reconcileTracks.
use wave_realtime_edge.Common.{
  ◌+◌, ltb, if◌then◌else◌, get-put, get-del-none, ℕ, String, Bool, false, not, Option, none, some,
  List, [], ◌∷◌, ◌≡◌, refl, arith, Dict, get, put, del, keep, includes, eq_iff, ◌∙◌, map,
}
use wave_realtime_edge.Room.State.{
  AdmissionPolicy, TrackKind, audio, video, RoomState, Participant, RoomTrack, WaitingEntry,
  empty_state,
}
use wave_realtime_edge.Room.Core.{Outcome, throw, pass, save, after, seat, enqueue}
use wave_realtime_edge.Room.Admin.{
  admit_entry, deny_entry, unseat, deny_record, end_room, drop_session,
}
use wave_realtime_edge.Room.Tracks.{
  mark, is_stale, live_tracks, stale_names, reconcile_tracks, save_if_removed,
}
use wave_realtime_edge.Room.Store.{Call, apply_all}
use wave_realtime_edge.Room.Change.{
  Change, stay, bound, typed, seated, queued, admitted, denied, locked, unlocked, resized, unseated,
  banned, ended, published, touched, unpublished, reconciled, apply_all_always,
}

-- A registry whose keys are distinct, each the name of its value.
module _ {V : Type 0} (name : V → String) where
  abbrev pub IsRegistry : Dict V → Type 0
  IsRegistry [] = Unit
  IsRegistry ((k, v) ∷ m) = (name v ≡ k) × (get k m ≡ none) × IsRegistry m

  get-IsRegistry : (k : String) (m : Dict V) {v : V} → IsRegistry m → get k m ≡ some v → name v ≡ k
  unfolding get
  get-IsRegistry k [] h e = cc
  get-IsRegistry k ((j, w) ∷ m) {v = v} (n, f, h) e =
      ground (arith, eq_iff j k, get-IsRegistry k m {v = v} h)

  put-IsRegistry :
      (k : String) (v : V) (m : Dict V) → name v ≡ k → IsRegistry m → IsRegistry (put k v m)
  unfolding put
  put-IsRegistry k v [] n h = (n, unfold get in refl, tt)
  put-IsRegistry k v ((j, w) ∷ m) n (p, f, h) =
      ground (arith, eq_iff j k, put-IsRegistry k v m n h, get-put k j v m, eq_iff k j)

  del-IsRegistry : (k : String) (m : Dict V) → IsRegistry m → IsRegistry (del k m)
  unfolding del
  del-IsRegistry k [] h = tt
  del-IsRegistry k ((j, w) ∷ m) (p, f, h) =
      ground (arith, del-IsRegistry k m h, get-del-none k j m f)

  get-keep-none :
      (q : (String × V) → Bool) (k : String) (m : Dict V) → get k m ≡ none → get k (keep q m) ≡ none
  unfolding get keep
  get-keep-none q k [] h = refl
  get-keep-none q k ((j, w) ∷ m) h = ground (arith, get-keep-none q k m)

  keep-IsRegistry : (q : (String × V) → Bool) (m : Dict V) → IsRegistry m → IsRegistry (keep q m)
  unfolding keep
  keep-IsRegistry q [] h = tt
  keep-IsRegistry q ((j, w) ∷ m) (p, f, h) =
      ground (arith, keep-IsRegistry q m h, get-keep-none q j m f)

  module _ (q : V → Bool) where
    get-keep_found :
        (k : String) (m : Dict V) (v : V)
        → IsRegistry m
        → get k m ≡ some v
        → get k (keep (λ e. q e.1) m) ≡ (if q v then some v else none)
    unfolding get keep
    get-keep_found k [] v h e = cc
    get-keep_found k ((j, w) ∷ m) v (p, f, h) e =
        ground (arith, eq_iff j k, get-keep_found k m v h, get-keep-none (λ e. q e.1) j m f)

    includes-keep-none :
        (k : String) (m : Dict V)
        → get k m ≡ none
        → includes (map (λ e. e.0) (keep (λ e. q e.1) m)) k ≡ false
    unfolding get keep includes
    includes-keep-none k [] h = refl
    includes-keep-none k ((j, w) ∷ m) h = ground (arith, includes-keep-none k m)

    includes-keep_found :
        (k : String) (m : Dict V) (v : V)
        → IsRegistry m
        → get k m ≡ some v
        → includes (map (λ e. e.0) (keep (λ e. q e.1) m)) k ≡ q v
    unfolding get keep includes
    includes-keep_found k [] v h e = cc
    includes-keep_found k ((j, w) ∷ m) v (p, f, h) e =
        ground (arith, eq_iff j k, includes-keep_found k m v h, includes-keep-none j m f)

-- Every registry of the room files a value under its own name.
abbrev pub IsWellFormed : RoomState → Type 0
IsWellFormed s =
    IsRegistry (λ p. p.participant_id) s.participants
    × IsRegistry (λ t. t.track_name) s.tracks
    × IsRegistry (λ w. w.participant_id) s.waiting

mark-participant_id :
    (k : TrackKind) (p : Participant) → (mark k p).participant_id ≡ p.participant_id
mark-participant_id audio p = refl
mark-participant_id video p = refl

Change-IsWellFormed : (c : Call) (s t : RoomState) → Change c s t → IsWellFormed s → IsWellFormed t
unfolding seat enqueue admit_entry deny_entry unseat deny_record end_room drop_session live_tracks
Change-IsWellFormed c s t stay h = h
Change-IsWellFormed c s t (bound x y k e) h = h
Change-IsWellFormed c s t (typed y e) h = h
Change-IsWellFormed c s t (seated now org p e g) (a, b, d) =
    (put-IsRegistry _ _ _ _ refl a, b, del-IsRegistry _ _ _ d)
Change-IsWellFormed c s t (queued now org p role g) (a, b, d) =
    (a, b, put-IsRegistry _ _ _ _ refl d)
Change-IsWellFormed c s t (admitted x v e) (a, b, d) = (a, b, del-IsRegistry _ _ _ d)
Change-IsWellFormed c s t (denied now x v e) (a, b, d) = (a, b, del-IsRegistry _ _ _ d)
Change-IsWellFormed c s t (locked p e) h = h
Change-IsWellFormed c s t (unlocked p e r) h = h
Change-IsWellFormed c s t (resized p m k e r) h = h
Change-IsWellFormed c s t (unseated now x p u e) (a, b, d) =
    (del-IsRegistry _ _ _ a, keep-IsRegistry _ _ _ b, d)
Change-IsWellFormed c s t (banned now x e) (a, b, d) = (a, b, del-IsRegistry _ _ _ d)
Change-IsWellFormed c s t (ended now u) h = (tt, tt, tt)
Change-IsWellFormed c s t (published r owner track e m) (a, b, d) =
    let owned =
      mark-participant_id r.kind owner ∙ get-IsRegistry _ r.participant_id s.participants a e in
    (put-IsRegistry _ _ _ _ owned a, put-IsRegistry _ _ _ _ m b, d)
Change-IsWellFormed c s t (touched name r e now) (a, b, d) =
    (a, put-IsRegistry _ _ _ _ (get-IsRegistry _ name s.tracks b e) b, d)
Change-IsWellFormed c s t (unpublished name) (a, b, d) = (a, del-IsRegistry _ _ _ b, d)
Change-IsWellFormed c s t (reconciled now) (a, b, d) = (a, keep-IsRegistry _ _ _ b, d)

-- The names that a call of `reconcileTracks` returns.
abbrev pub reported : Outcome (List String) → List String
reported (throw e) = []
reported (pass names) = names
reported (save s names) = names

-- After any calls on a new room, the participants, the tracks and the waiting entries are each filed
-- once, under the id or name that they carry.
pub apply_all-IsWellFormed :
    (date_now : ℕ) (cs : List Call) → IsWellFormed (apply_all cs (empty_state date_now))
apply_all-IsWellFormed date_now cs =
    apply_all_always IsWellFormed Change-IsWellFormed cs (empty_state date_now)
      (unfold empty_state in (tt, tt, tt))

settle :
    (now : ℕ) (s : RoomState) (name : String) (t : RoomTrack) (names : List String)
    → get name s.tracks ≡ some t
    → get name (live_tracks now s.tracks) ≡ (if not (is_stale now t) then some t else none)
    → includes names name ≡ is_stale now t
    → let o = save_if_removed names (record s { tracks = live_tracks now s.tracks }) in
      (get name (after o s).tracks ≡ (if is_stale now t then none else some t))
      × (includes (reported o) name ≡ is_stale now t)
unfolding includes
settle now s name t [] e l i = ground arith
settle now s name t (n ∷ ns) e l i = (ground arith, i)

settle_none :
    (now : ℕ) (s : RoomState) (name : String) (names : List String)
    → get name s.tracks ≡ none
    → get name (live_tracks now s.tracks) ≡ none
    → get name
        (after (save_if_removed names (record s { tracks = live_tracks now s.tracks })) s).tracks
      ≡ none
settle_none now s name [] e l = e
settle_none now s name (n ∷ ns) e l = l

-- What of a state is not the registry of tracks.
abbrev pub rest_of :
    RoomState → Dict Participant × Dict WaitingEntry × Option AdmissionPolicy × Option ℕ
rest_of s = (s.participants, s.waiting, s.policy, s.empty_at)

settle_rest :
    (s : RoomState) (tracks : Dict RoomTrack) (names : List String)
    → rest_of (after (save_if_removed names (record s { tracks = tracks })) s) ≡ rest_of s
settle_rest s tracks [] = refl
settle_rest s tracks (n ∷ ns) = refl

-- A track is stale from 30 s after it was last seen, that moment left out.
is_stale_lem : (now : ℕ) (t : RoomTrack) → is_stale now t ≡ ltb (t.last_seen_at + 30000) now
is_stale_lem now t = ground arith

-- In a well-formed room, `reconcileTracks` at `now` drops a registered track exactly if it was last
-- seen more than 30 s before `now`, and then reports its name; it adds no track, and leaves the
-- participants, the waiting room, the policy and the clock alone.
pub reconcile_tracks_lem :
    (now : ℕ) (s : RoomState) (name other : String) (t : RoomTrack)
    → IsWellFormed s
    → get name s.tracks ≡ some t
    → get other s.tracks ≡ none
    → let s' = after (reconcile_tracks now s) s in
      (get name s'.tracks ≡ (if ltb (t.last_seen_at + 30000) now then none else some t))
      × (includes (reported (reconcile_tracks now s)) name ≡ ltb (t.last_seen_at + 30000) now)
      × (get other s'.tracks ≡ none)
      × (rest_of s' ≡ rest_of s)
unfolding reconcile_tracks live_tracks stale_names
reconcile_tracks_lem now s name other t (a, b, d) e n =
    let names = stale_names now s.tracks in
    let (kept, told) =
      settle now s name t names e (get-keep_found _ (λ t. not (is_stale now t)) name s.tracks t b e)
        (includes-keep_found _ (is_stale now) name s.tracks t b e) in
    let absent =
      settle_none now s other names n (get-keep-none (λ t. t.track_name) _ other s.tracks n) in
    let stale = is_stale_lem now t in
    (kept ∙ rw stale refl, told ∙ stale, absent, settle_rest s _ names)
