-- ===== src/Room/Durable.antt =====
-- `load` and `save` of RoomCore, and the eviction of its object: a room as its callers see it.
use wave_realtime_edge.Common.{
  ℕ, none, some, List, [], ◌∷◌, ◌≡◌, ◌⊎◌, inl, inr, refl, sym, ap₂, ◌∙◌, arith, Option-cases,
}
use wave_realtime_edge.Room.State.{RoomState, normalize_state, to_stored}
use wave_realtime_edge.Room.Core.{SfuError, Outcome, throw, pass, save, after, ensure_room}
use wave_realtime_edge.Room.Core
use wave_realtime_edge.Room.Admin
use wave_realtime_edge.Room.Tracks
use wave_realtime_edge.Room.Admin.{set_capacity}
use wave_realtime_edge.Room.Store.{
  RoomCore, load_from, load, Result, ok, err, finish, call, Call, apply, apply_all,
}
use wave_realtime_edge.Room.Serve.{Reply, as_reply, method, early, serve}

-- The runtime drops the object: the cache is gone, storage stays.
abbrev pub evict : RoomCore → RoomCore
evict c = record c { state = none }

-- What happens to the object of a room: it serves a call, at some time of the clock, or is evicted.
pub data Event : Type 0 where
  served : ℕ → Call → Event
  evicted : Event

-- The object after the events, and the answers that the callers got.
pub run : List Event → RoomCore → RoomCore × List (Result Reply)
unfolding serve
run [] c = (c, [])
run (served now x ∷ es) c =
    let (c', answer) = serve now x c in let (c'', answers) = run es c' in (c'', answer ∷ answers)
run (evicted ∷ es) c = run es (evict c)

unfoldable pub calls_of : List Event → List Call
calls_of [] = []
calls_of (served now x ∷ es) = x ∷ calls_of es
calls_of (evicted ∷ es) = calls_of es

-- A room that is nothing but its state: what it answers to a call, and to calls in a row.
abbrev pub answer_of : Outcome Reply → Result Reply
answer_of (throw e) = err e
answer_of (pass a) = ok a
answer_of (save s a) = ok a

unfoldable pub answers : List Call → RoomState → List (Result Reply)
unfolding method apply
answers [] s = []
answers (x ∷ xs) s = answer_of (method x s) ∷ answers xs (apply x s)

-- Storage loads as that state, at any time of the clock, and the cache holds it or nothing.
abbrev pub Represents : RoomState → RoomCore → Type 0
Represents s c =
    ((now : ℕ) → load_from now none c.stored ≡ s) × ((c.state ≡ none) ⊎ (c.state ≡ some s))

after-as_reply {ℓ} :
    {A : Type ℓ} (f : A → Reply) (o : Outcome A) (s : RoomState)
    → after (as_reply f o) s ≡ after o s
after-as_reply f (throw e) s = refl
after-as_reply f (pass a) s = refl
after-as_reply f (save s' a) s = refl

after-method : (x : Call) (s : RoomState) → after (method x s) s ≡ apply x s
unfolding method apply
after-method (Call.ensure_room config) s =
    after-as_reply Reply.of_config (Core.ensure_room config s) s
after-method (Call.join_room now org p) s =
    after-as_reply Reply.of_participant (Core.join_room now org p s) s
after-method (Call.admission_check now org p) s =
    after-as_reply Reply.of_id (Core.admission_check now org p s) s
after-method (Call.admit pid) s = after-as_reply Reply.of_entry (Admin.admit pid s) s
after-method (Call.deny now pid) s = after-as_reply (λ x. Reply.done) (Admin.deny now pid s) s
after-method Call.lock s = after-as_reply (λ x. Reply.done) (Admin.lock s) s
after-method Call.unlock s = after-as_reply (λ x. Reply.done) (Admin.unlock s) s
after-method (Call.set_capacity n) s = after-as_reply (λ x. Reply.done) (Admin.set_capacity n s) s
after-method (Call.eject now pid) s = after-as_reply Reply.of_id (Admin.eject now pid s) s
after-method (Call.ban now pid) s = after-as_reply Reply.of_id (Admin.ban now pid s) s
after-method (Call.end_room now) s = after-as_reply Reply.of_ids (Admin.end_room now s) s
after-method (Call.leave_room now later org pid) s =
    after-as_reply Reply.of_usage (Admin.leave_room now later org pid s) s
after-method (Call.register_track now org t) s =
    after-as_reply Reply.of_track (Tracks.register_track now org t s) s
after-method (Call.touch_track now name) s =
    after-as_reply (λ x. Reply.done) (Tracks.touch_track now name s) s
after-method (Call.unregister_track name) s =
    after-as_reply (λ x. Reply.done) (Tracks.unregister_track name s) s
after-method (Call.reconcile_tracks now) s =
    after-as_reply Reply.of_ids (Tracks.reconcile_tracks now s) s

-- What throws before the load throws the same on every state.
method-early : (x : Call) (s : RoomState) (e : SfuError) → early x ≡ some e → method x s ≡ throw e
unfolding early method ensure_room set_capacity
method-early (Call.ensure_room config) s e h = ground arith
method-early (Call.set_capacity none) s e h = absurd (cc)
method-early (Call.set_capacity (some n)) s e h = ground arith
method-early x s e h = absurd (cc)

load-Represents : (now : ℕ) (s : RoomState) (c : RoomCore) → Represents s c → load now c ≡ s
unfolding load load_from
load-Represents now s c (h, k) = elim k [ inl e ↦ rw e (h now) | inr e ↦ rw e refl ]

finish-Represents :
    (o : Outcome Reply) (s : RoomState) (c : RoomCore)
    → Represents s c
    → ((finish o s c).1 ≡ answer_of o) × Represents (after o s) (finish o s c).0
unfolding load_from normalize_state to_stored
finish-Represents (throw e) s c (h, k) = (refl, (h, inr refl))
finish-Represents (pass a) s c (h, k) = (refl, (h, inr refl))
finish-Represents (save s' a) s c (h, k) = (refl, (λ now. refl, inr refl))

serve-Represents :
    (now : ℕ) (x : Call) (s : RoomState) (c : RoomCore)
    → Represents s c
    → ((serve now x c).1 ≡ answer_of (method x s)) × Represents (apply x s) (serve now x c).0
unfolding serve call
serve-Represents now x s c r = elim (Option-cases (early x)) [
  | inr (e, thrown) ↦
      let same = method-early x s e thrown in
      let still : apply x s ≡ s = sym (after-method x s) ∙ rw same refl in
      (rw (thrown, same) refl, rw (thrown, still) r)
  | inl passed ↦
      let (answer, left) = finish-Represents (method x s) s c r in
      let loaded = load-Represents now s c r in
      (rw (passed, loaded) answer, rw (passed, loaded, ← (after-method x s)) left)
]

-- An eviction shows in nothing. If storage holds a record that loads as a state, and the cache holds that
-- state or nothing, then whatever calls come, with evictions anywhere between them, each call is answered
-- as by a room that is the state alone and is never evicted, and at the end storage loads as the state of
-- that room.
pub run-answers :
    (es : List Event) (s : RoomState) (c : RoomCore)
    → Represents s c
    → ((run es c).1 ≡ answers (calls_of es) s) × Represents (apply_all (calls_of es) s) (run es c).0
unfolding run answers calls_of apply_all
run-answers [] s c r = (refl, r)
run-answers (evicted ∷ es) s c (h, k) = run-answers es s (evict c) (h, inl refl)
run-answers (served now x ∷ es) s c r =
    let (answer, r') = serve-Represents now x s c r in
    let (rest, left) = run-answers es (apply x s) (serve now x c).0 r' in
    (ap₂ ◌∷◌ answer rest, left)
