-- ===== src/Room/Capacity.antt =====
-- The capacity of a room: RoomCore.joinRoom and setCapacity.
use wave_realtime_edge.Common.{
  ℕ, ◌≤◌, ◌<◌, String, Option, none, some, List, ◌≡◌, ◌≢◌, arith, All, length, length-put-le,
  length-put_found, length-del-le,
}
use wave_realtime_edge.Room.State.{RoomState, AdmissionPolicy}
use wave_realtime_edge.Room.Core.{JoinRequest, seat, join_guard, enqueue}
use wave_realtime_edge.Room.Admin.{JsNumber, admit_entry, deny_entry, unseat, deny_record, end_room}
use wave_realtime_edge.Room.Store.{Call, apply_all}
use wave_realtime_edge.Room.Change.{
  Change, stay, bound, typed, seated, queued, admitted, denied, locked, unlocked, resized, unseated,
  banned, ended, published, touched, unpublished, reconciled, apply_all_inv,
}

abbrev capacity_of : Option AdmissionPolicy → Option ℕ
capacity_of none = none
capacity_of (some p) = p.capacity

-- A bound room with a limit that it keeps.
abbrev pub IsWithin : ℕ → RoomState → Type 0
IsWithin n s = (s.config ≢ none) × (capacity_of s.policy ≡ some n) × (length s.participants ≤ n)

join_guard-lt :
    (n : ℕ) (org : String) (p : JoinRequest) (s : RoomState)
    → capacity_of s.policy ≡ some n
    → join_guard org p s ≡ none
    → length s.participants < n
unfolding join_guard
join_guard-lt n org p s c g = ground arith

Change-IsWithin :
    (n : ℕ) (c : Call) (s t : RoomState)
    → ((m : Option JsNumber) → c ≢ Call.set_capacity m)
    → Change c s t
    → IsWithin n s
    → IsWithin n t
unfolding seat enqueue admit_entry unseat deny_record end_room
Change-IsWithin n c s t a stay h = h
Change-IsWithin n c s t a (bound x y k e) (b, q, l) = absurd (b e)
Change-IsWithin n c s t a (typed y e) (b, q, l) = ground arith
Change-IsWithin n c s t a (seated now org p e g) (b, q, l) = (
  b,
  q,
  omega (arith, join_guard-lt n org p s q g, length-put-le p.participant_id _ s.participants),
)
Change-IsWithin n c s t a (queued now org p role g) h = h
Change-IsWithin n c s t a (admitted x v e) h = h
Change-IsWithin n c s t a (denied now x v e) h = unfold deny_entry in ground arith
Change-IsWithin n c s t a (locked p e) (b, q, l) = (b, ground arith, l)
Change-IsWithin n c s t a (unlocked p e r) (b, q, l) = (b, ground arith, l)
Change-IsWithin n c s t a (resized p m k e r) h = absurd (a m e)
Change-IsWithin n c s t a (unseated now x p u e) (b, q, l) =
    (b, q, omega (arith, length-del-le x s.participants))
Change-IsWithin n c s t a (banned now x e) h = h
Change-IsWithin n c s t a (ended now u) (b, q, l) = (b, q, omega arith)
Change-IsWithin n c s t a (published r owner track e m) (b, q, l) =
    (b, q, omega (arith, length-put_found r.participant_id _ s.participants e))
Change-IsWithin n c s t a (touched name r e now) h = h
Change-IsWithin n c s t a (unpublished name) h = h
Change-IsWithin n c s t a (reconciled now) h = h

-- A bound room whose policy has the capacity n, and which holds at most n participants, holds at
-- most n after any calls other than setCapacity, and its capacity is still n.
pub capacity_kept :
    (n : ℕ) (s : RoomState) (cs : List Call)
    → IsWithin n s
    → All (λ c. (m : Option JsNumber) → c ≢ Call.set_capacity m) cs
    → IsWithin n (apply_all cs s)
capacity_kept n s cs h a =
    apply_all_inv (IsWithin n) (λ c. (m : Option JsNumber) → c ≢ Call.set_capacity m)
      (λ c s t. Change-IsWithin n c s t) cs s a h
