-- ===== src/Room/Banned.antt =====
-- What a ban does to the later life of a room: RoomCore.ban with joinRoom, admissionCheck, isExpired.
use wave_realtime_edge.Common.{
  length_pos_of_includes, ap, ℕ, String, true, false, Option, none, some, List, ◌≡◌, ◌≢◌, inl, inr,
  refl, arith, get, includes, get-put_ne, get-del-none, get-del_self, includes-push,
  includes-without, eq_refl, eq_ne, eq_iff, Bool-cases, ◌∙◌,
}
use wave_realtime_edge.Room.State.{RoomConfig, RoomState, Participant, WaitingEntry}
use wave_realtime_edge.Room.Core.{
  participant_banned, throw, pass, after, JoinRequest, seat, join_guard, join_room, enqueue,
  join_guard-ne_banned, admission_guard-ne_banned,
}
use wave_realtime_edge.Room.Admin.{
  admit_entry, deny_entry, unseat, deny_record, end_room, ban, eject, eject_found, saved,
  is_expired, is_idle, past_ttl,
}
use wave_realtime_edge.Room.Store.{Call, apply_all}
use wave_realtime_edge.Room.Change.{
  Change, stay, bound, typed, seated, queued, admitted, denied, locked, unlocked, resized, unseated,
  banned, ended, published, touched, unpublished, reconciled, apply_all_always, policy_of-ne_none,
}

-- A room with a policy has banned the participant, who is neither seated nor waiting.
abbrev pub IsBarred : String → RoomState → Type 0
IsBarred pid s =
    (s.policy ≢ none)
    × (includes s.banned pid ≡ true)
    × (get pid s.participants ≡ none)
    × (get pid s.waiting ≡ none)

-- Nobody but the banned passes the guards.
ne_of_not_banned :
    {pid pid' : String} (s : RoomState)
    → includes s.banned pid ≡ true
    → includes s.banned pid' ≡ false
    → pid' ≢ pid
ne_of_not_banned s h k e = cc

ne_of_found {ℓ} :
    {V : Type ℓ} {pid pid' : String} (m : List (String × V)) {v : V}
    → get pid m ≡ none
    → get pid' m ≡ some v
    → pid' ≢ pid
ne_of_found m h k e = cc

deny_record-includes :
    (pid : String) (s : RoomState) → includes (deny_record pid s).banned pid ≡ true
unfolding deny_record
deny_record-includes pid s = elim (Bool-cases (includes s.banned pid)) [
  | inl e ↦ ground arith
  | inr e ↦ ground (arith, includes-push s.banned pid pid, eq_refl pid)
]

includes-deny_record :
    (pid x : String) (s : RoomState)
    → includes s.banned pid ≡ true
    → includes (deny_record x s).banned pid ≡ true
unfolding deny_record
includes-deny_record pid x s l = ground (arith, includes-push s.banned x pid)

denied-IsBarred :
    (pid : String) (now : ℕ) (x : String) (w : WaitingEntry) (s : RoomState)
    → IsBarred pid s
    → IsBarred pid (after (deny_entry (some w) now x s) s)
unfolding deny_entry
denied-IsBarred pid now x w s (g, l, o, v) = ground (arith, get-del-none x pid s.waiting v)

Change-IsBarred :
    (pid : String) (c : Call) (s t : RoomState) → Change c s t → IsBarred pid s → IsBarred pid t
unfolding seat enqueue admit_entry unseat end_room get
Change-IsBarred pid c s t stay h = h
Change-IsBarred pid c s t (bound config y k n) (g, l, o, w) =
    (policy_of-ne_none y s.policy k g, l, o, w)
Change-IsBarred pid c s t (typed y n) (g, l, o, w) = absurd (g n)
Change-IsBarred pid c s t (seated now org p e k) (g, l, o, w) =
    let ne = ne_of_not_banned s l (join_guard-ne_banned org p s g k) in
    (g, l, get-put_ne _ _ _ _ ne ∙ o, get-del-none _ _ _ w)
Change-IsBarred pid c s t (queued now org p role k) (g, l, o, w) =
    let ne = ne_of_not_banned s l (admission_guard-ne_banned org p s g k) in
    (g, l, o, get-put_ne _ _ _ _ ne ∙ w)
Change-IsBarred pid c s t (admitted x v e) (g, l, o, w) = (g, l, o, get-del-none _ _ _ w)
Change-IsBarred pid c s t (denied now x v e) h = denied-IsBarred pid now x v s h
Change-IsBarred pid c s t (locked p e) (g, l, o, w) = (λ n. cc, l, o, w)
Change-IsBarred pid c s t (unlocked p e q) (g, l, o, w) = (λ n. cc, l, o, w)
Change-IsBarred pid c s t (resized p n k e q) (g, l, o, w) = (λ n. cc, l, o, w)
Change-IsBarred pid c s t (unseated now x p u e) (g, l, o, w) = (g, l, get-del-none _ _ _ o, w)
Change-IsBarred pid c s t (banned now x e) (g, l, o, w) =
    unfold deny_record in (g, includes-deny_record pid x s l, o, get-del-none _ _ _ w)
Change-IsBarred pid c s t (ended now u) (g, l, o, w) = (g, l, refl, refl)
Change-IsBarred pid c s t (published r owner track e n) (g, l, o, w) =
    (g, l, get-put_ne _ _ _ _ (ne_of_found s.participants o e) ∙ o, w)
Change-IsBarred pid c s t (touched name r e now) h = h
Change-IsBarred pid c s t (unpublished name) h = h
Change-IsBarred pid c s t (reconciled now) h = h

-- `ban` bars the participant.
saved-IsBarred :
    (pid : String) (now : ℕ) (s : RoomState) (o : Option Participant)
    → s.policy ≢ none
    → get pid (deny_record pid s).participants ≡ o
    → IsBarred pid (after (saved (deny_record pid s) (eject_found o now pid (deny_record pid s))) s)
unfolding eject_found
saved-IsBarred pid now s none g e =
    unfold deny_record in (g, deny_record-includes pid s, e, get-del_self _ _)
saved-IsBarred pid now s (some p) g e =
    unfold unseat deny_record in (g, deny_record-includes pid s, get-del_self _ _, get-del_self _ _)

pub ban-IsBarred :
    (pid : String) (now : ℕ) (s : RoomState)
    → s.policy ≢ none
    → IsBarred pid (after (ban now pid s) s)
unfolding ban eject
ban-IsBarred pid now s g = saved-IsBarred pid now s _ g refl

join_room_of_IsBarred :
    (now : ℕ) (org : String) (p : JoinRequest) (s : RoomState) (config : RoomConfig)
    → IsBarred p.participant_id s
    → s.config ≡ some config
    → config.org ≡ org
    → p.participant_id ≢ ""
    → p.session_id ≢ ""
    → join_room now org p s ≡ throw participant_banned
unfolding join_room join_guard
join_room_of_IsBarred now org p s config (g, l, o, w) c q a b =
    ground (arith, eq_iff config.org org, eq_iff p.participant_id "", eq_iff p.session_id "")

-- Once a room with a policy has banned a participant, then after any further calls the participant
-- is neither seated nor waiting, and a join of the room's own org under that id, with a session and
-- where neither is empty, is refused with PARTICIPANT_BANNED.
pub ban_forever :
    (now : ℕ) (s : RoomState) (cs : List Call) (at : ℕ) (p : JoinRequest) (config : RoomConfig)
    → s.policy ≢ none
    → (apply_all cs (after (ban now p.participant_id s) s)).config ≡ some config
    → p.participant_id ≢ ""
    → p.session_id ≢ ""
    → let s' = apply_all cs (after (ban now p.participant_id s) s) in
      (get p.participant_id s'.participants ≡ none)
      × (get p.participant_id s'.waiting ≡ none)
      × (join_room at config.org p s' ≡ throw participant_banned)
ban_forever now s cs at p config g c a b =
    let pid = p.participant_id in
    let s' = apply_all cs (after (ban now pid s) s) in
    let barred : IsBarred pid s' =
      apply_all_always (IsBarred pid) (Change-IsBarred pid) cs _ (ban-IsBarred pid now s g) in
    (barred.2, barred.3, join_room_of_IsBarred at config.org p s' config barred c refl a b)

-- A barred participant whose admitted marker is still there.
abbrev IsStuck : String → RoomState → Type 0
IsStuck pid s = IsBarred pid s × (includes s.admitted pid ≡ true)

includes-admit_entry :
    (pid x : String) (w : WaitingEntry) (s : RoomState)
    → includes s.admitted pid ≡ true
    → includes (after (admit_entry (some w) x s) s).admitted pid ≡ true
unfolding admit_entry
includes-admit_entry pid x w s h = ground (arith, includes-push s.admitted x pid)

includes-deny_entry :
    (pid : String) (now : ℕ) (x : String) (w : WaitingEntry) (s : RoomState)
    → x ≢ pid
    → includes s.admitted pid ≡ true
    → includes (after (deny_entry (some w) now x s) s).admitted pid ≡ true
unfolding deny_entry
includes-deny_entry pid now x w s ne h =
    ground (arith, includes-without x pid s.admitted, eq_ne x pid ne)

-- The marker of a barred participant stays: only taking a seat or a denied knock takes one away.
Change-admitted :
    (pid : String) (c : Call) (s t : RoomState)
    → Change c s t
    → IsStuck pid s
    → includes t.admitted pid ≡ true
unfolding seat enqueue unseat deny_record end_room
Change-admitted pid c s t (seated now org p e k) ((g, l, o, w), m) =
    let ne = ne_of_not_banned s l (join_guard-ne_banned org p s g k) in
    includes-without p.participant_id pid s.admitted ∙ (rw (eq_ne p.participant_id pid ne) m)
Change-admitted pid c s t (admitted x v e) (h, m) = includes-admit_entry pid x v s m
Change-admitted pid c s t (denied now x v e) ((g, l, o, w), m) =
    includes-deny_entry pid now x v s (ne_of_found s.waiting w e) m
Change-admitted pid c s t _ (h, m) = m

is_idle_of_admitted :
    (pid : String) (s : RoomState) → includes s.admitted pid ≡ true → is_idle s ≡ false
is_idle_of_admitted pid s h = ground (arith, length_pos_of_includes s.admitted pid h)

past_ttl_busy : (c : Option RoomConfig) (t : Option ℕ) (now : ℕ) → past_ttl c t false now ≡ false
past_ttl_busy none t now = refl
past_ttl_busy (some c) none now = refl
past_ttl_busy (some c) (some t) now = refl

ban-admitted :
    (now : ℕ) (pid : String) (s : RoomState)
    → includes s.admitted pid ≡ true
    → includes (after (ban now pid s) s).admitted pid ≡ true
unfolding ban eject
ban-admitted now pid s m = go (get pid (deny_record pid s).participants)
  where
    go :
        (o : Option Participant)
        → includes
            (after
              (saved (deny_record pid s) (eject_found o now pid (deny_record pid s)))
              s).admitted
            pid
          ≡ true
    go none = unfold eject_found deny_record in m
    go (some p) = unfold eject_found unseat deny_record in m

-- If a room with a policy bans a participant whom a host has admitted and who has not yet taken the
-- seat, then the room never expires: after any further calls `isExpired` answers false at any time,
-- also when nobody is left in the room or the host has ended it.
pub ban_of_admitted-is_expired :
    (now : ℕ) (pid : String) (s : RoomState) (cs : List Call) (at : ℕ)
    → s.policy ≢ none
    → includes s.admitted pid ≡ true
    → is_expired at (apply_all cs (after (ban now pid s) s)) ≡ pass false
unfolding is_expired
ban_of_admitted-is_expired now pid s cs at g m =
    let s' = apply_all cs (after (ban now pid s) s) in
    let stuck : IsStuck pid s' =
      apply_all_always (IsStuck pid)
        (λ c a b ch h. (Change-IsBarred pid c a b ch h.0, Change-admitted pid c a b ch h)) cs _
        (ban-IsBarred pid now s g, ban-admitted now pid s m) in
    rw (is_idle_of_admitted pid s' stuck.1) (ap pass (past_ttl_busy s'.config s'.empty_at at))
