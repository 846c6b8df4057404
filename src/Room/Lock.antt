-- ===== src/Room/Lock.antt =====
-- The lock of a room: RoomCore.lock and unlock.
use wave_realtime_edge.Common.{
  String, Bool, true, false, Option, none, some, List, ◌≡◌, ◌≢◌, refl, arith, All, ◌∙◌, get,
  get-put_ne, get-del-none,
}
use wave_realtime_edge.Room.State.{RoomState, AdmissionPolicy}
use wave_realtime_edge.Room.Core.{after, JoinRequest, seat, join_guard, enqueue}
use wave_realtime_edge.Room.Admin.{
  with_policy, admit_entry, deny_entry, unseat, deny_record, end_room, lock,
}
use wave_realtime_edge.Room.Store.{Call, apply_all}
use wave_realtime_edge.Room.Change.{
  Change, stay, bound, typed, seated, queued, admitted, denied, locked, unlocked, resized, unseated,
  banned, ended, published, touched, unpublished, reconciled, apply_all_inv,
}

abbrev is_locked : Option AdmissionPolicy → Bool
is_locked none = false
is_locked (some p) = p.locked

-- A locked room that is bound, in which the participant has no seat.
abbrev pub IsShutTo : String → RoomState → Type 0
IsShutTo pid s = (s.config ≢ none) × (is_locked s.policy ≡ true) × (get pid s.participants ≡ none)

join_guard_locked :
    (org : String) (p : JoinRequest) (s : RoomState)
    → is_locked s.policy ≡ true
    → join_guard org p s ≢ none
unfolding join_guard
join_guard_locked org p s l = ground arith

Change-IsShutTo :
    (pid : String) (c : Call) (s t : RoomState)
    → c ≢ Call.unlock
    → Change c s t
    → IsShutTo pid s
    → IsShutTo pid t
unfolding seat enqueue admit_entry unseat deny_record end_room get
Change-IsShutTo pid c s t a stay h = h
Change-IsShutTo pid c s t a (bound x y k e) (b, q, l) = absurd (b e)
Change-IsShutTo pid c s t a (typed y e) (b, q, l) = ground arith
Change-IsShutTo pid c s t a (seated now org p e g) (b, q, l) =
    absurd (join_guard_locked org p s q g)
Change-IsShutTo pid c s t a (queued now org p role g) h = h
Change-IsShutTo pid c s t a (admitted x v e) h = h
Change-IsShutTo pid c s t a (denied now x v e) h = unfold deny_entry in ground arith
Change-IsShutTo pid c s t a (locked p e) (b, q, l) = (b, refl, l)
Change-IsShutTo pid c s t a (unlocked p e r) (b, q, l) = absurd (a e)
Change-IsShutTo pid c s t a (resized p m k e r) (b, q, l) = (b, ground arith, l)
Change-IsShutTo pid c s t a (unseated now x p u e) (b, q, l) = (b, q, get-del-none _ _ _ l)
Change-IsShutTo pid c s t a (banned now x e) h = h
Change-IsShutTo pid c s t a (ended now u) (b, q, l) = (b, q, refl)
Change-IsShutTo pid c s t a (published r owner track e m) (b, q, l) =
    (b, q, get-put_ne _ _ _ _ (λ x. cc) ∙ l)
Change-IsShutTo pid c s t a (touched name r e now) h = h
Change-IsShutTo pid c s t a (unpublished name) h = h
Change-IsShutTo pid c s t a (reconciled now) h = h

-- `lock` shuts a bound room with a policy to everybody who has no seat: after any further calls
-- other than `unlock` they still have none.
pub lock-keeps_out :
    (pid : String) (s : RoomState) (cs : List Call)
    → s.config ≢ none
    → s.policy ≢ none
    → get pid s.participants ≡ none
    → All (λ c. c ≢ Call.unlock) cs
    → get pid (apply_all cs (after (lock s) s)).participants ≡ none
lock-keeps_out pid s cs b g l a =
    (apply_all_inv (IsShutTo pid) (λ c. c ≢ Call.unlock) (λ c s t. Change-IsShutTo pid c s t) cs
      (after (lock s) s) a (unfold lock in shut s.policy g)).2
  where
    shut :
        (o : Option AdmissionPolicy)
        → o ≢ none
        → IsShutTo pid (after (with_policy o (λ p. record p { locked = true }) s) s)
    shut none n = absurd (n refl)
    shut (some p) n = (b, refl, l)
