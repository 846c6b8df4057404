-- ===== src/Whip/Orphans.antt =====
-- src/whip-sweep.ts: a publish whose client is gone is billed.
use wave_realtime_edge.Common.{
  if◌then◌else◌, ◌<◌, ◌-◌, ℕ, ◌+◌, ◌≤◌, String, ◌≡◌, refl, ap, ◌∙◌, ◌≢◌, ◌⊎◌, inl, inr, Bool, true,
  false, Option, none, some, List, [], ◌∷◌, ◌++◌, arith, All, ltb,
}
use wave_realtime_edge.Whip.Resource.{resource_key, WhipResource, PartialResource, to_partial}
use wave_realtime_edge.Whip.Meter.{
  MeterLine, UsageEnvelope, ceil_minutes, resolve_whip_meter, build_whip_meter_line,
  deliver_whip_teardown_meter,
}
use wave_realtime_edge.Whip.Billing.{bill-pos, ConfirmedDeath, two_deaths}
use wave_realtime_edge.Whip.Plan.{
  whip_gone_confirm_ms, or_zero, max, Verdict, bill_of, confirm, sweep_action, alive, gone,
  disconnected,
}
use wave_realtime_edge.Whip.Rule.{settle, visit, visit_raw}
use wave_realtime_edge.Whip.Deaths.{
  closed, stamped, refreshed, kept, Visit, visits, verdict_at, read_raw-stringify, visit-Outcome,
}

-- A verdict that is a sign of death whatever the record says.
pub data IsGone : Verdict → Type 0 where
  is_gone : IsGone gone
  is_disconnected : IsGone disconnected

gone_action :
    (i : String) (q : WhipResource) (v : Verdict) (at : ℕ)
    → IsGone v
    → sweep_action i q v at ≡ confirm i q v at q.disconnected_since
unfolding sweep_action
gone_action i q v at IsGone.is_gone = refl
gone_action i q v at IsGone.is_disconnected = refl

-- The response to a request is ok.
abbrev pub is_accepted : Option Bool → Bool
is_accepted none = false
is_accepted (some ok) = ok

deliver_lem :
    (fetch : UsageEnvelope → Option Bool) (org : String) (line : MeterLine)
    → 0 < line.meter_value
    → deliver_whip_teardown_meter true fetch org line
      ≡ is_accepted (fetch (record { org = org; usage = line }))
unfolding deliver_whip_teardown_meter
deliver_lem fetch org line h = ground arith

module _ (json_stringify : WhipResource → String) (json_parse : String → Option PartialResource)
    (i : String) (reads : (q : WhipResource) → json_parse (json_stringify q) ≡ some (to_partial q))
    (nonempty : (q : WhipResource) → json_stringify q ≢ "") (r : WhipResource) where
  abbrev pub seen_by : Visit → Verdict
  seen_by v = verdict_at json_stringify json_parse i r.session_id v

  -- What the resource's visits leave of the stored record.
  abbrev pub after_visits : List Visit → Option String
  after_visits vs = visits json_stringify json_parse i vs (some (json_stringify r))

  abbrev pub held : ℕ → Option String
  held since = some (json_stringify (record r { disconnected_since = some since }))

  visits-none : (vs : List Visit) → visits json_stringify json_parse i vs none ≡ none
  unfolding visits visit
  visits-none [] = refl
  visits-none (v ∷ vs) = visits-none vs

  visits-append :
      (vs ws : List Visit) (o : Option String)
      → visits json_stringify json_parse i (vs ++ ws) o
        ≡ visits json_stringify json_parse i ws (visits json_stringify json_parse i vs o)
  unfolding visits
  visits-append [] ws o = refl
  visits-append (v ∷ vs) ws o =
      visits-append vs ws (visit json_stringify json_parse v.tick v.at i o)

  -- Once it is stamped, a record that no visit sees alive keeps its stamp or is gone.
  stamp_stays :
      (vs : List Visit) (since : ℕ)
      → All (λ v. seen_by v ≢ alive) vs
      → (visits json_stringify json_parse i vs (held since) ≡ none)
        ⊎ (visits json_stringify json_parse i vs (held since) ≡ held since)
  unfolding visits
  stamp_stays [] since h = inr refl
  stamp_stays (v ∷ vs) since (n, h) =
      let q : WhipResource = record r { disconnected_since = some since } in
      elim (visit-Outcome json_stringify json_parse i reads nonempty q v) [
        | kept k e ↦ rw e (stamp_stays vs since h)
        | refreshed l e ↦ absurd (n l)
        | stamped d m e ↦ absurd (cc)
        | closed t d m le dl e ↦ inl (rw e (visits-none vs))
      ]

  visit_gone :
      (stamp : Option ℕ) (v : Visit)
      → IsGone (seen_by v)
      → let q : WhipResource = record r { disconnected_since = stamp } in
        visit json_stringify json_parse v.tick v.at i (some (json_stringify q))
        ≡ settle json_stringify json_parse v.tick i
            (json_stringify q)
            (confirm i q (seen_by v) v.at stamp)
  visit_gone stamp v g =
      let q : WhipResource = record r { disconnected_since = stamp } in
      visit_raw json_stringify json_parse v.tick v.at i (json_stringify q) q
        (read_raw-stringify json_stringify json_parse i reads nonempty q)
      ∙ ap (settle json_stringify json_parse v.tick i (json_stringify q))
          (gone_action i q (seen_by v) v.at g)

  gone_stamps :
      (v : Visit)
      → IsGone (seen_by v)
      → v.tick.kv_fails (resource_key i) ≡ false
      → r.disconnected_since ≡ none
      → visit json_stringify json_parse v.tick v.at i (some (json_stringify r)) ≡ held v.at
  unfolding settle confirm
  gone_stamps v g w n = visit_gone r.disconnected_since v g ∙ rw (n, confirm) (rw (settle, w) refl)

  -- What the publish owes: the minutes from its start to the last sighting that its record holds, and at
  -- least one, under the id of the resource.
  abbrev pub owed : UsageEnvelope
  owed = record {
    org = r.org;
    usage = record {
      meter = resolve_whip_meter r.meter;
      meter_value = ceil_minutes (max (or_zero r.last_seen_at) (r.started_at + 1) - r.started_at);
      event_id = i;
    };
  }

  -- The gateway decides: the record is deleted if it accepts what is owed, and else it is held.
  gone_decides :
      (v : Visit) (since : ℕ)
      → IsGone (seen_by v)
      → v.tick.kv_fails (resource_key i) ≡ false
      → since + whip_gone_confirm_ms ≤ v.at
      → visit json_stringify json_parse v.tick v.at i (held since)
        ≡ (if is_accepted (v.tick.fetch owed) then none else held since)
  unfolding settle confirm bill_of build_whip_meter_line
  gone_decides v since g w le =
      let q : WhipResource = record r { disconnected_since = some since } in
      let late : ltb v.at (since + whip_gone_confirm_ms) ≡ false = ground arith in
      let b = bill_of i q (seen_by v) in
      let sent : deliver_whip_teardown_meter true v.tick.fetch b.org b.line
          ≡ is_accepted (v.tick.fetch owed) =
        deliver_lem v.tick.fetch b.org b.line (bill-pos i q (seen_by v)) in
      visit_gone (some since) v g ∙ rw (late, confirm) (rw (sent, settle) (rw w refl))

  pub orphan_is_billed :
      (first : Visit) (between : List Visit) (last : Visit)
      → r.disconnected_since ≡ none
      → IsGone (seen_by first)
      → first.tick.kv_fails (resource_key i) ≡ false
      → All (λ v. seen_by v ≢ alive) between
      → IsGone (seen_by last)
      → last.tick.kv_fails (resource_key i) ≡ false
      → first.at + whip_gone_confirm_ms ≤ last.at
      → (ConfirmedDeath json_stringify json_parse i r (first ∷ between)
          × (after_visits (first ∷ (between ++ last ∷ [])) ≡ none))
        ⊎ (after_visits (first ∷ (between ++ last ∷ []))
            ≡ (if is_accepted (last.tick.fetch owed) then none else held first.at))
  unfolding visits
  orphan_is_billed first between last n g w b gl wl le =
      let later = visits json_stringify json_parse i (last ∷ []) in
      let begun =
        ap (visits json_stringify json_parse i (between ++ last ∷ [])) (gone_stamps first g w n)
        ∙ visits-append between (last ∷ []) (held first.at) in
      elim (stamp_stays between first.at b) [
        | inl e ↦ inl (
          two_deaths json_stringify json_parse i r reads nonempty (first ∷ between) n
              (ap (visits json_stringify json_parse i between) (gone_stamps first g w n) ∙ e),
          begun ∙ ap later e ∙ visits-none (last ∷ []),
        )
        | inr e ↦ inr (begun ∙ ap later e ∙ gone_decides last first.at gl wl le)
      ]
