-- ===== src/Room/Knock.antt =====
-- The waiting room: RoomCore.admissionCheck, admit and joinRoom in a room of mode "knock".
use wave_realtime_edge.Common.{
  put, List, ℕ, String, true, false, Option, none, some, ◌≡◌, ◌≢◌, ◌⊎◌, inl, inr, refl, arith, get,
  includes, includes-push, includes-without, eq_refl, Option-cases, Bool-cases, sym, ◌∙◌, subst, ap,
}
use wave_realtime_edge.Room.State.{RoomState, AdmissionPolicy, WaitingEntry, knock, Participant}
use wave_realtime_edge.Room.Core.{
  Outcome, throw, pass, save, after, JoinRequest, seat, join_guard, join_room, AdmissionRequest,
  enqueue, admission_guard, admission_check, queue_or_pass, or_default, is_host,
}
use wave_realtime_edge.Room.Admin.{admit, admit_entry}
use wave_realtime_edge.Room.Store.{Call, apply_all}

-- The policy makes a joiner of that role wait.
abbrev pub MustKnock : AdmissionRequest → RoomState → Type 0
MustKnock p s =
    (policy : AdmissionPolicy) × (s.policy ≡ some policy)
    × (policy.mode ≡ knock)
    × (is_host (or_default p.role policy.default_role) ≡ false)

queue_admitted :
    (now : ℕ) (p : AdmissionRequest) (s : RoomState) (o : Option AdmissionPolicy)
    (policy : AdmissionPolicy)
    → o ≡ some policy
    → includes s.admitted p.participant_id ≡ true
    → queue_or_pass now p s o ≡ pass none
unfolding queue_or_pass
queue_admitted now p s o policy e i = rw e (ground arith)

queue_other :
    (now : ℕ) (p : AdmissionRequest) (s : RoomState) (o : Option AdmissionPolicy)
    (policy : AdmissionPolicy)
    → o ≡ some policy
    → policy.mode ≡ knock
    → is_host (or_default p.role policy.default_role) ≡ false
    → includes s.admitted p.participant_id ≡ false
    → queue_or_pass now p s o
      ≡ enqueue now p.participant_id (or_default p.role policy.default_role) s
unfolding queue_or_pass
queue_other now p s o policy e m r i = rw (e, m, r, i)

-- What a request that has to wait should get: the room keeps the participant's id, role and time in the
-- waiting room, stops the clock of an empty room, and the answer is the id to wait under.
abbrev pub held : ℕ → AdmissionRequest → AdmissionPolicy → RoomState → Outcome (Option String)
held now p policy s =
    save
      (record s {
        waiting =
            put p.participant_id
              (record {
                participant_id = p.participant_id;
                role = or_default p.role policy.default_role;
                requested_at = now;
              })
              s.waiting;
        empty_at = none;
      })
      (some p.participant_id)

-- In a knock room, a request for a role other than host that no guard refuses is let through if a
-- host has admitted the participant, and else it is held: the room saves it in the waiting room and
-- answers that it waits.
pub admission_check-knock :
    (now : ℕ) (org : String) (p : AdmissionRequest) (s : RoomState) (k : MustKnock p s)
    → admission_guard org p s ≡ none
    → ((includes s.admitted p.participant_id ≡ true) × (admission_check now org p s ≡ pass none))
      ⊎ ((includes s.admitted p.participant_id ≡ false)
          × (admission_check now org p s ≡ held now p k.0 s))
unfolding admission_check enqueue
admission_check-knock now org p s (policy, e, m, r) g =
    elim (Bool-cases (includes s.admitted p.participant_id)) [
      | inl i ↦ inl (i, rw (g, admission_check) (queue_admitted now p s s.policy policy e i))
      | inr i ↦ inr (i, rw (g, admission_check) (queue_other now p s s.policy policy e m r i))
    ]

admitted-listed :
    (o : Option WaitingEntry) (pid : String) (s : RoomState)
    → o ≢ none
    → includes (after (admit_entry o pid s) s).admitted pid ≡ true
unfolding admit_entry
admitted-listed none pid s n = absurd (n refl)
admitted-listed (some w) pid s n = ground (arith, includes-push s.admitted pid pid, eq_refl pid)

seat-consumes :
    (now : ℕ) (p : JoinRequest) (s : RoomState)
    → includes (after (seat now p s) s).admitted p.participant_id ≡ false
unfolding seat
seat-consumes now p s =
    includes-without p.participant_id p.participant_id s.admitted ∙ (rw (eq_refl p.participant_id))

join-consumes :
    (now : ℕ) (org : String) (p : JoinRequest) (s s' : RoomState) (x : Participant)
    → join_room now org p s ≡ save s' x
    → includes s'.admitted p.participant_id ≡ false
join-consumes now org p s s' x e = elim (Option-cases (join_guard org p s)) [
  | inr (y, g) ↦
      let refused : join_room now org p s ≡ throw y = unfold join_room in rw (g, join_room) in
      absurd (cc)
  | inl g ↦
      let passed : join_room now org p s ≡ seat now p s = unfold join_room in rw (g, join_room) in
      subst (λ z. includes z.admitted p.participant_id ≡ false)
        (ap (λ o. after o s) (sym passed ∙ e)) (seat-consumes now p s)
]

-- An admission is good for one seat. When a host has admitted a waiting participant, the marker of the
-- admission is set, and in a knock room a request under the id that no guard refuses is let through.
-- After any calls, once a join has seated the participant, the marker is gone, and in a knock room the
-- next request under the id that no guard refuses is held again, unless it asks for the role of host.
pub admit_once :
    (org : String) (s : RoomState) (j : JoinRequest) (q : AdmissionRequest) (before : ℕ)
    (cs : List Call) (now : ℕ) (t' : RoomState) (x : Participant) (p : AdmissionRequest) (at : ℕ)
    (k : MustKnock p t')
    → get j.participant_id s.waiting ≢ none
    → q.participant_id ≡ j.participant_id
    → MustKnock q (after (admit j.participant_id s) s)
    → admission_guard org q (after (admit j.participant_id s) s) ≡ none
    → join_room now org j (apply_all cs (after (admit j.participant_id s) s)) ≡ save t' x
    → p.participant_id ≡ j.participant_id
    → admission_guard org p t' ≡ none
    → let s' = after (admit j.participant_id s) s in
      (includes s'.admitted j.participant_id ≡ true)
      × (admission_check before org q s' ≡ pass none)
      × (includes t'.admitted j.participant_id ≡ false)
      × (admission_check at org p t' ≡ held at p k.0 t')
unfolding admit
admit_once org s j q before cs now t' x p at k w eq kq gq e ep g =
    let pid = j.participant_id in
    let s' = after (admit pid s) s in
    let marked : includes s'.admitted pid ≡ true = admitted-listed (get pid s.waiting) pid s w in
    let gone : includes t'.admitted pid ≡ false =
      join-consumes now org j (apply_all cs s') t' x e in
    (
      marked,
      elim (admission_check-knock before org q s' kq gq) [
        | inl (_, through) ↦ through
        | inr (n, _) ↦ absurd (cc)
      ],
      gone,
      elim (admission_check-knock at org p t' k g) [
        | inl (y, _) ↦ absurd (cc)
        | inr (_, waits) ↦ waits
      ],
    )
