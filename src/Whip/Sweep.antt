-- ===== src/Whip/Sweep.antt =====
-- src/whip-sweep.ts, sweepWhipResources: one tick of the sweep over the key-value store. The platform's
-- JSON, the clock, the SFU's answers, the gateway and the failures of the store are parameters. No other
-- client writes while a page is swept.
use wave_realtime_edge.Common.{
  ℕ, ◌+◌, ◌-◌, String, Bool, true, not, Option, none, some, List, [], ◌∷◌, ◌++◌, length, leb,
  if◌then◌else◌, put, del,
}
use wave_realtime_edge.Whip.Resource.{
  is_resource_id, resource_key, id_of, WhipResource, PartialResource, WhipStore, load_resource,
}
use wave_realtime_edge.Whip.Meter.{UsageEnvelope, deliver_whip_teardown_meter}
use wave_realtime_edge.Whip.Plan.{
  Verdict, WhipSweepEntry, SweepWrite, SweepMark, SweepBill, WhipSweepPlan, plan_whip_sweep,
  unknown,
}

-- What a tick meets outside.
pub record Tick : Type 0 where
  -- the time that the n-th call of the clock gives
  pub now : ℕ → ℕ
  -- the verdict on a session, none if the probe throws
  pub liveness : String → Option Verdict
  -- whether the gateway accepts, none if the request throws
  pub fetch : UsageEnvelope → Option Bool
  -- whether a write or delete of that key throws
  pub kv_fails : String → Bool

pub record SweepStats : Type 0 where
  pub scanned : ℕ
  pub billed : ℕ
  pub refreshed : ℕ
  pub skipped : ℕ
  pub deferred : ℕ

abbrev pub no_stats : SweepStats
no_stats = record { scanned = 0; billed = 0; refreshed = 0; skipped = 0; deferred = 0 }

-- The store and the statistics that the loops of a tick change.
pub record Sweeping : Type 0 where
  pub kv : WhipStore
  pub stats : SweepStats

pub record Page : Type 0 where
  pub keys : List String
  pub list_complete : Bool
  pub cursor : Option String

pub record Scan : Type 0 where
  pub examined : ℕ
  pub scanned : ℕ
  pub entries : List WhipSweepEntry

abbrev pub or_unknown : Option Verdict → Verdict
or_unknown none = unknown
or_unknown (some v) = v

module _ (json_stringify : WhipResource → String) (json_parse : String → Option PartialResource)
    (t : Tick) where
  -- The entry of one resource, if the id has its form and the store holds it. The clock has been read
  -- once for each resource scanned before.
  unfoldable pub entry_at : WhipStore → ℕ → String → Option WhipSweepEntry
  unfolding is_resource_id load_resource
  entry_at kv scanned resource_id =
      if not (is_resource_id resource_id)
      then none
      else elim (load_resource json_parse kv resource_id) [
        | none ↦ none
        | some r ↦ some (record {
          resource_id = resource_id;
          resource = r;
          verdict = or_unknown (t.liveness r.session_id);
          observed_at = some (t.now scanned);
        })
      ]

  unfoldable pub entry_of : WhipStore → ℕ → String → Option WhipSweepEntry
  unfolding entry_at
  entry_of kv scanned name = entry_at kv scanned (id_of name)

  unfoldable pub add_entry : Option WhipSweepEntry → Scan → Scan
  add_entry none s = s
  add_entry (some e) s = record s { scanned = s.scanned + 1; entries = s.entries ++ e ∷ [] }

  -- The loop over the keys of a page; the limit is on the keys examined in the tick.
  unfoldable pub scan : WhipStore → ℕ → List String → Scan → Scan
  unfolding entry_of add_entry
  scan kv limit [] s = s
  scan kv limit (name ∷ names) s =
      let rest =
        scan kv limit names
          (add_entry (entry_of kv s.scanned name) (record s { examined = s.examined + 1 })) in
      if leb limit s.examined then s else rest

  unfoldable pub bill_one : SweepBill → Sweeping → Sweeping
  unfolding deliver_whip_teardown_meter del
  bill_one b s =
      if deliver_whip_teardown_meter true t.fetch b.org b.line
      then record s {
        kv =
            if t.kv_fails (resource_key b.resource_id)
            then s.kv
            else del (resource_key b.resource_id) s.kv;
        stats = record (s.stats) { billed = s.stats.billed + 1 };
      }
      else record s { stats = record (s.stats) { deferred = s.stats.deferred + 1 } }

  unfoldable pub bill_all : List SweepBill → Sweeping → Sweeping
  unfolding bill_one
  bill_all [] s = s
  bill_all (b ∷ bs) s = bill_all bs (bill_one b s)

  unfoldable pub mark_one : SweepMark → Sweeping → Sweeping
  unfolding put
  mark_one m s = if t.kv_fails (resource_key m.write.resource_id) then s else record s {
    kv = put (resource_key m.write.resource_id) (json_stringify m.write.resource) s.kv;
  }

  unfoldable pub mark_all : List SweepMark → Sweeping → Sweeping
  unfolding mark_one
  mark_all [] s = s
  mark_all (m ∷ ms) s = mark_all ms (mark_one m s)

  unfoldable pub refresh_one : SweepWrite → Sweeping → Sweeping
  unfolding put
  refresh_one w s = if t.kv_fails (resource_key w.resource_id) then s else record s {
    kv = put (resource_key w.resource_id) (json_stringify w.resource) s.kv;
    stats = record (s.stats) { refreshed = s.stats.refreshed + 1 };
  }

  unfoldable pub refresh_all : List SweepWrite → Sweeping → Sweeping
  unfolding refresh_one
  refresh_all [] s = s
  refresh_all (w ∷ ws) s = refresh_all ws (refresh_one w s)

  unfoldable pub apply_plan : WhipSweepPlan → Sweeping → Sweeping
  unfolding bill_all mark_all refresh_all
  apply_plan plan s = refresh_all plan.refresh (mark_all plan.mark (bill_all plan.meter s))

  unfoldable pub count_scan : List WhipSweepEntry → WhipSweepPlan → SweepStats → SweepStats
  count_scan entries plan stats = record stats {
    scanned = stats.scanned + length entries;
    skipped =
        stats.skipped
        + (length entries - length plan.refresh - length plan.meter - length plan.mark);
  }

  -- The body of the loop over the pages: the keys examined so far and what it leaves.
  unfoldable pub sweep_page : ℕ → List String → ℕ → Sweeping → ℕ × Sweeping
  unfolding scan plan_whip_sweep apply_plan count_scan
  sweep_page limit names examined s =
      let found =
        scan s.kv limit names
          (record { examined = examined; scanned = s.stats.scanned; entries = [] }) in
      let plan = plan_whip_sweep found.entries (t.now found.scanned) in
      (found.examined, apply_plan plan (record s { stats = count_scan found.entries plan s.stats }))
