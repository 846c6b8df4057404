-- ===== src/Whip/Billing.antt =====
-- src/whip-sweep.ts: when the sweep bills a publish and forgets its record.
use wave_realtime_edge.Common.{
  ℕ, ◌+◌, ◌-◌, ◌≤◌, ◌<◌, String, ◌≡◌, refl, sym, subst, ◌≢◌, ◌⊎◌, inl, inr, Bool, true, Option,
  none, some, List, [], ◌∷◌, ◌++◌, arith, All, All-append, append_assoc,
}
use wave_realtime_edge.Whip.Resource.{WhipResource, PartialResource, to_partial}
use wave_realtime_edge.Whip.Meter.{
  MeterLine, UsageEnvelope, ceil_minutes, build_whip_meter_line, deliver_whip_teardown_meter,
}
use wave_realtime_edge.Whip.Plan.{whip_gone_confirm_ms, Verdict, or_zero, max, bill_of, alive}
use wave_realtime_edge.Whip.Deaths.{
  closed, stamped, refreshed, kept, Visit, IsDeath, visits, verdict_at, NotRescued, Delivered,
  visit-Outcome,
}

ceil_minutes-pos : (ms : ℕ) → 0 < ms → 0 < ceil_minutes ms
unfolding ceil_minutes
ceil_minutes-pos ms h = ground arith

pub bill-pos : (i : String) (q : WhipResource) (v : Verdict) → 0 < (bill_of i q v).line.meter_value
unfolding bill_of build_whip_meter_line
bill-pos i q v = ceil_minutes-pos _ (ground arith)

fetch_of_delivered :
    (fetch : UsageEnvelope → Option Bool) (org : String) (line : MeterLine)
    → 0 < line.meter_value
    → deliver_whip_teardown_meter true fetch org line ≡ true
    → fetch (record { org = org; usage = line }) ≡ some true
unfolding deliver_whip_teardown_meter
fetch_of_delivered fetch org line h d = ground arith

module _ (json_stringify : WhipResource → String) (json_parse : String → Option PartialResource)
    (i : String) (r : WhipResource) where
  abbrev pub verdict : Visit → Verdict
  verdict v = verdict_at json_stringify json_parse i r.session_id v

  abbrev pub NotSaved : Visit → Type 0
  NotSaved v = NotRescued json_stringify json_parse i r.session_id v

  -- The last sighting that a record holds is the one it began with, or that of a visit which saw the
  -- session alive.
  abbrev pub Sighting : List Visit → Option ℕ → Type 0
  Sighting vs seen =
      (seen ≡ r.last_seen_at)
      ⊎ ((x : List Visit) × (w : Visit) × (y : List Visit) × (vs ≡ x ++ w ∷ y)
          × (verdict w ≡ alive)
          × (seen ≡ some w.at))

  -- Among the visits, two that saw the session dead, far enough apart, none between them that saved it,
  -- and at the second of them usage that the gateway accepted.
  pub record ConfirmedDeath (vs : List Visit) : Type 0 where
    pub before : List Visit
    pub first : Visit
    pub between : List Visit
    pub last : Visit
    pub after : List Visit
    pub order : vs ≡ before ++ first ∷ (between ++ last ∷ after)
    pub first_dead : IsDeath (verdict first)
    pub not_saved : All NotSaved between
    pub last_dead : IsDeath (verdict last)
    pub apart : first.at + whip_gone_confirm_ms ≤ last.at
    pub seen : Option ℕ
    pub sighted : Sighting (before ++ first ∷ between) seen
    pub usage : MeterLine
    pub accepted : last.tick.fetch (record { org = r.org; usage = usage }) ≡ some true
    pub keyed : usage.event_id ≡ i
    pub minutes :
        usage.meter_value ≡ ceil_minutes (max (or_zero seen) (r.started_at + 1) - r.started_at)

  -- A record that a visit has left, of the same publish.
  abbrev state : Option ℕ → Option ℕ → WhipResource
  state seen stamp = record r { last_seen_at = seen; disconnected_since = stamp }

  abbrev Pending : List Visit → Option ℕ → Type 0
  Pending past stamp =
      (stamp ≡ none)
      ⊎ ((before : List Visit) × (first : Visit) × (between : List Visit) × (past
            ≡ before ++ first ∷ between)
          × IsDeath (verdict first)
          × All NotSaved between
          × (stamp ≡ some first.at))

  Pending-more :
      (past : List Visit) (stamp : Option ℕ) (v : Visit)
      → NotSaved v
      → Pending past stamp
      → Pending (past ++ v ∷ []) stamp
  Pending-more past stamp v n (inl e) = inl e
  Pending-more past stamp v n (inr (b, f, m, e, d, a, s)) = inr (
    b,
    f,
    m ++ v ∷ [],
    rw e (append_assoc b (f ∷ m) (v ∷ [])),
    d,
    All-append NotSaved m (v ∷ []) a (n, tt),
    s,
  )

  Sighting-more :
      (past : List Visit) (seen : Option ℕ) (v : Visit)
      → Sighting past seen
      → Sighting (past ++ v ∷ []) seen
  Sighting-more past seen v (inl e) = inl e
  Sighting-more past seen v (inr (x, w, y, e, l, s)) =
      inr (x, w, y ++ v ∷ [], rw e (append_assoc x (w ∷ y) (v ∷ [])), l, s)

  confirmed_here :
      (past after : List Visit) (v : Visit) (seen : Option ℕ) (since : ℕ)
      → Sighting past seen
      → Pending past (some since)
      → IsDeath (verdict v)
      → since + whip_gone_confirm_ms ≤ v.at
      → Delivered json_stringify json_parse i (state seen (some since)) v
      → ConfirmedDeath (past ++ v ∷ after)
  unfolding bill_of build_whip_meter_line
  confirmed_here past after v seen since si (inl e) d le h = absurd (cc)
  confirmed_here past after v seen since si (inr (b, f, m, e, fd, a, s)) d le h =
      let line = (bill_of i (state seen (some since)) (verdict v)).line in
      record {
        before = b;
        first = f;
        between = m;
        last = v;
        after = after;
        order = rw e (append_assoc b (f ∷ m) (v ∷ after));
        first_dead = fd;
        not_saved = a;
        last_dead = d;
        apart = ground arith;
        seen = seen;
        sighted = rw (← e) si;
        usage = line;
        accepted =
            fetch_of_delivered v.tick.fetch r.org line
              (bill-pos i (state seen (some since)) (verdict v)) h;
        keyed = refl;
        minutes = refl;
      }

  module _ (reads : (q : WhipResource) → json_parse (json_stringify q) ≡ some (to_partial q))
      (nonempty : (q : WhipResource) → json_stringify q ≢ "") where
    confirmed :
        (vs past : List Visit) (seen stamp : Option ℕ)
        → Sighting past seen
        → Pending past stamp
        → visits json_stringify json_parse i vs (some (json_stringify (state seen stamp))) ≡ none
        → ConfirmedDeath (past ++ vs)
    unfolding visits
    confirmed [] past seen stamp si p h = absurd (cc)
    confirmed (v ∷ vs) past seen stamp si p h =
        subst ConfirmedDeath (append_assoc past (v ∷ []) vs)
          (elim (visit-Outcome json_stringify json_parse i reads nonempty (state seen stamp) v) [
            | kept n e ↦
                confirmed vs (past ++ v ∷ []) seen stamp (Sighting-more past seen v si)
                  (Pending-more past stamp v n p) (rw (← e) h)
            | refreshed l e ↦
                confirmed vs (past ++ v ∷ []) (some v.at) none (inr (past, v, [], refl, l, refl))
                  (inl refl) (rw (← e) h)
            | stamped d n e ↦
                confirmed vs (past ++ v ∷ []) seen (some v.at) (Sighting-more past seen v si)
                  (inr (past, v, [], refl, d, tt, refl)) (rw (← e) h)
            | closed since d n le dl e ↦
                subst ConfirmedDeath (sym (append_assoc past (v ∷ []) vs))
                  (confirmed_here past vs v seen since si (rw (← n) p) d le (rw (← n) dl))
          ])

    -- A record without a stamp is deleted by the sweep only after two visits, at least four minutes apart,
    -- that each found a sign of death (gone, disconnected or idle), with no visit between them that saw the
    -- session alive and could save it. At the second the gateway has accepted the usage, under the id of
    -- the resource: the minutes from the start to the last sighting, which is the one the record held or
    -- that of a visit which saw the session alive, and at least one minute. JSON reads back what it writes.
    pub two_deaths :
        (vs : List Visit)
        → r.disconnected_since ≡ none
        → visits json_stringify json_parse i vs (some (json_stringify r)) ≡ none
        → ConfirmedDeath vs
    two_deaths vs n h = confirmed vs [] r.last_seen_at r.disconnected_since (inl refl) (inl n) h
