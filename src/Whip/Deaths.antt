-- ===== src/Whip/Deaths.antt =====
-- src/whip-sweep.ts: the sweeps of one resource over time, and when it is billed.
use wave_realtime_edge.Common.{
  ℕ, ◌+◌, ◌≤◌, String, ◌≡◌, refl, ◌≢◌, ◌⊎◌, inl, inr, true, Option, none, some, List, [], ◌∷◌,
  arith, ltb, Bool-cases, eq_ne,
}
use wave_realtime_edge.Whip.Resource.{
  resource_key, WhipResource, PartialResource, to_partial, typed, read_raw,
}
use wave_realtime_edge.Whip.Meter.{deliver_whip_teardown_meter}
use wave_realtime_edge.Whip.Plan.{
  whip_gone_confirm_ms, Verdict, MarkReason, SweepAction, mark_reason, bill_of, confirm,
  idle_survives, sweep_action, alive, gone, idle, disconnected, unknown, skip, refresh_with,
  mark_with, bill,
}
use wave_realtime_edge.Whip.Sweep.{Tick, or_unknown}
use wave_realtime_edge.Whip.Rule.{settle, visit, visit_raw}

-- One visit of the sweep to the resource: what the tick met, and the time of the probe.
pub record Visit : Type 0 where
  pub tick : Tick
  pub at : ℕ

pub data IsDeath : Verdict → Type 0 where
  by_gone : IsDeath gone
  by_idle : IsDeath idle
  by_disconnect : IsDeath disconnected

module _ (i : String) (r : WhipResource) (at : ℕ) where
  -- The cases of the rule, each with what holds there.
  abbrev pub Cases : Verdict → SweepAction → Type 0
  Cases v a =
      ((v ≢ alive) × (a ≡ skip))
      ⊎ (((v ≡ alive)
            × (a ≡ refresh_with (record r { last_seen_at = some at; disconnected_since = none })))
          ⊎ ((IsDeath v
                × (r.disconnected_since ≡ none)
                × (reason : MarkReason) × (a
                    ≡ mark_with (record r { disconnected_since = some at }) reason))
              ⊎ (IsDeath v
                  × (since : ℕ) × (r.disconnected_since ≡ some since)
                  × (since + whip_gone_confirm_ms ≤ at)
                  × (a ≡ bill (bill_of i r v)))))

  confirm-Cases :
      (v : Verdict)
      → IsDeath v
      → v ≢ alive
      → (o : Option ℕ) → r.disconnected_since ≡ o
      → Cases v (confirm i r v at o)
  unfolding confirm
  confirm-Cases v d n none e = inr (inr (inl (d, e, mark_reason v, refl)))
  confirm-Cases v d n (some since) e = elim (Bool-cases (ltb at (since + whip_gone_confirm_ms))) [
    | inl f ↦ inl (n, rw f refl)
    | inr f ↦ inr (inr (inr (d, since, e, ground arith, rw f refl)))
  ]

  pub sweep_action-Cases : (v : Verdict) → Cases v (sweep_action i r v at)
  unfolding sweep_action
  sweep_action-Cases unknown = inl (λ e. cc, refl)
  sweep_action-Cases alive = inr (inl (refl, refl))
  sweep_action-Cases idle = elim (Bool-cases (idle_survives r at r.last_seen_at)) [
    | inl e ↦ inl (λ p. cc, rw (e, sweep_action) refl)
    | inr e ↦
        rw (e, sweep_action)
          (confirm-Cases idle IsDeath.by_idle (λ p. cc) r.disconnected_since refl)
  ]
  sweep_action-Cases gone = confirm-Cases gone IsDeath.by_gone (λ p. cc) r.disconnected_since refl
  sweep_action-Cases disconnected =
      confirm-Cases disconnected IsDeath.by_disconnect (λ p. cc) r.disconnected_since refl

module _ (json_stringify : WhipResource → String) (json_parse : String → Option PartialResource)
    (i : String) where
  unfoldable pub visits : List Visit → Option String → Option String
  visits [] o = o
  visits (v ∷ vs) o = visits vs (visit json_stringify json_parse v.tick v.at i o)

  abbrev pub verdict_at : String → Visit → Verdict
  verdict_at session_id v = or_unknown (v.tick.liveness session_id)

  -- The visit did not see the session alive, or could not record it.
  abbrev pub NotRescued : String → Visit → Type 0
  NotRescued session_id v =
      (verdict_at session_id v ≢ alive) ⊎ (v.tick.kv_fails (resource_key i) ≡ true)

  -- The gateway has accepted the usage of the record at that visit, or there is nothing to accept.
  abbrev pub Delivered : WhipResource → Visit → Type 0
  Delivered r v =
      let b = bill_of i r (verdict_at r.session_id v) in
      deliver_whip_teardown_meter true v.tick.fetch b.org b.line ≡ true

  -- What a visit makes of the record that is stored.
  pub data Outcome (r : WhipResource) (v : Visit) (o : Option String) : Type 0 where
    kept : NotRescued r.session_id v → o ≡ some (json_stringify r) → Outcome r v o
    refreshed :
        verdict_at r.session_id v ≡ alive
        → o
          ≡ some (json_stringify (record r { last_seen_at = some v.at; disconnected_since = none }))
        → Outcome r v o
    stamped :
        IsDeath (verdict_at r.session_id v)
        → r.disconnected_since ≡ none
        → o ≡ some (json_stringify (record r { disconnected_since = some v.at }))
        → Outcome r v o
    closed :
        (since : ℕ)
        → IsDeath (verdict_at r.session_id v)
        → r.disconnected_since ≡ some since
        → since + whip_gone_confirm_ms ≤ v.at
        → Delivered r v
        → o ≡ none
        → Outcome r v o

  death_lem : {v : Verdict} → IsDeath v → v ≢ alive
  death_lem IsDeath.by_gone e = cc
  death_lem IsDeath.by_idle e = cc
  death_lem IsDeath.by_disconnect e = cc

  settle-Outcome :
      (r : WhipResource) (v : Visit) (a : SweepAction)
      → Cases i r v.at (verdict_at r.session_id v) a
      → Outcome r v (settle json_stringify json_parse v.tick i (json_stringify r) a)
  unfolding settle
  settle-Outcome r v a (inl (n, e)) = kept (inl n) (rw e refl)
  settle-Outcome r v a (inr (inl (l, e))) = elim (Bool-cases (v.tick.kv_fails (resource_key i))) [
    | inl f ↦ kept (inr f) (rw (e, settle) (rw f refl))
    | inr f ↦ refreshed l (rw (e, settle) (rw f refl))
  ]
  settle-Outcome r v a (inr (inr (inl (d, n, reason, e)))) =
      elim (Bool-cases (v.tick.kv_fails (resource_key i))) [
        | inl f ↦ kept (inr f) (rw (e, settle) (rw f refl))
        | inr f ↦ stamped d n (rw (e, settle) (rw f refl))
      ]
  settle-Outcome r v a (inr (inr (inr (d, since, n, le, e)))) =
      let b = bill_of i r (verdict_at r.session_id v) in
      elim (Bool-cases (deliver_whip_teardown_meter true v.tick.fetch b.org b.line)) [
        | inr f ↦ kept (inl (death_lem d)) (rw (e, settle) (rw f refl))
        | inl f ↦ elim (Bool-cases (v.tick.kv_fails (resource_key i))) [
          | inl g ↦ kept (inr g) (rw (e, settle) (rw (f, g) refl))
          | inr g ↦ closed since d n le f (rw (e, settle) (rw (f, g) refl))
        ]
      ]

  module _ (reads : (r : WhipResource) → json_parse (json_stringify r) ≡ some (to_partial r))
      (nonempty : (r : WhipResource) → json_stringify r ≢ "") where
    -- What is written of a record is read back as it was, the stamps included.
    pub read_raw-stringify : (r : WhipResource) → read_raw json_parse (json_stringify r) ≡ some r
    unfolding read_raw typed
    read_raw-stringify r = rw (eq_ne (json_stringify r) "" (nonempty r), reads r, read_raw) refl

    pub visit-Outcome :
        (r : WhipResource) (v : Visit)
        → Outcome r v (visit json_stringify json_parse v.tick v.at i (some (json_stringify r)))
    visit-Outcome r v =
        rw
          (visit_raw json_stringify json_parse v.tick v.at i (json_stringify r) r
            (read_raw-stringify r))
          (settle-Outcome r v _ (sweep_action-Cases i r v.at (verdict_at r.session_id v)))
