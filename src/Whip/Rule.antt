-- ===== src/Whip/Rule.antt =====
-- src/whip-sweep.ts: the rule by which the sweep acts on one resource.
use wave_realtime_edge.Common.{ℕ, String, ◌≡◌, refl, true, Option, none, some, if◌then◌else◌}
use wave_realtime_edge.Whip.Resource.{resource_key, WhipResource, PartialResource, read_raw}
use wave_realtime_edge.Whip.Meter.{deliver_whip_teardown_meter}
use wave_realtime_edge.Whip.Plan.{SweepAction, sweep_action, skip, refresh_with, mark_with, bill}
use wave_realtime_edge.Whip.Sweep.{Tick, or_unknown}
use wave_realtime_edge.Whip.Effects.{billed, marked, refreshed}
use wave_realtime_edge.Whip.Visit.{}

module _ (json_stringify : WhipResource → String) (json_parse : String → Option PartialResource)
    (t : Tick) where
  -- What becomes of the text that is stored for a resource when the sweep visits it, probed at the time
  -- `at`: the usage of a session that is taken for dead is delivered, and the record goes only if the
  -- gateway has accepted it and the delete does not fail; a stamped or refreshed record is written.
  unfoldable pub settle : String → String → SweepAction → Option String
  settle i raw skip = some raw
  settle i raw (refresh_with r) =
      if t.kv_fails (resource_key i) then some raw else some (json_stringify r)
  settle i raw (mark_with r reason) =
      if t.kv_fails (resource_key i) then some raw else some (json_stringify r)
  settle i raw (bill b) =
      if deliver_whip_teardown_meter true t.fetch b.org b.line
      then (if t.kv_fails (resource_key i) then some raw else none)
      else some raw

  unfoldable pub visit : ℕ → String → Option String → Option String
  unfolding settle
  visit at i none = none
  visit at i (some raw) = elim (read_raw json_parse raw) [
    | none ↦ some raw
    | some r ↦ settle i raw (sweep_action i r (or_unknown (t.liveness r.session_id)) at)
  ]

  -- The three effects of a plan on one record are the rule for one resource.
  pub settle_lem :
      (a : SweepAction) (i raw : String)
      → refreshed json_stringify json_parse t a i (
          marked json_stringify json_parse t a i
            (billed json_stringify json_parse t a i (some raw)))
        ≡ settle i raw a
  unfolding refreshed marked billed settle
  settle_lem skip i raw = refl
  settle_lem (refresh_with r) i raw = refl
  settle_lem (mark_with r reason) i raw = refl
  settle_lem (bill b) i raw = refl

  pub visit_raw :
      (at : ℕ) (i raw : String) (r : WhipResource)
      → read_raw json_parse raw ≡ some r
      → visit at i (some raw)
        ≡ settle i raw (sweep_action i r (or_unknown (t.liveness r.session_id)) at)
  unfolding visit
  visit_raw at i raw r e = rw (e, visit) refl
