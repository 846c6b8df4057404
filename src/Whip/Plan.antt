-- ===== src/Whip/Plan.antt =====
-- src/whip-sweep.ts, planWhipSweep: what the sweep does with each resource that it has probed.
use wave_realtime_edge.Common.{
  ℕ, ◌+◌, ◌*◌, String, Bool, true, false, Option, none, some, List, [], ◌∷◌, ◌++◌, ltb, leb,
  if◌then◌else◌,
}
use wave_realtime_edge.Whip.Resource.{WhipResource}
use wave_realtime_edge.Whip.Meter.{MeterLine, resolve_whip_meter, build_whip_meter_line}

abbrev pub whip_idle_grace_ms : ℕ
whip_idle_grace_ms = 3 * 60000

abbrev pub whip_gone_confirm_ms : ℕ
whip_gone_confirm_ms = 4 * 60000

-- `sessionLiveness` of the SFU client.
pub data Verdict : Type 0 where
  alive : Verdict
  gone : Verdict
  idle : Verdict
  disconnected : Verdict
  unknown : Verdict

pub record WhipSweepEntry : Type 0 where
  pub resource_id : String
  pub resource : WhipResource
  pub verdict : Verdict
  pub observed_at : Option ℕ

pub data MarkReason : Type 0 where
  disconnected_first_seen : MarkReason
  gone_first_seen : MarkReason
  idle_first_seen : MarkReason

pub record SweepWrite : Type 0 where
  pub resource_id : String
  pub resource : WhipResource

pub record SweepMark : Type 0 where
  pub write : SweepWrite
  pub reason : MarkReason

pub record SweepBill : Type 0 where
  pub resource_id : String
  pub org : String
  pub line : MeterLine
  pub verdict : Verdict
  pub never_seen_alive : Bool

pub record WhipSweepPlan : Type 0 where
  pub refresh : List SweepWrite
  pub meter : List SweepBill
  pub drop_ids : List String
  pub mark : List SweepMark

-- What one round of the loop pushes.
pub data SweepAction : Type 0 where
  skip : SweepAction
  refresh_with : WhipResource → SweepAction
  mark_with : WhipResource → MarkReason → SweepAction
  bill : SweepBill → SweepAction

unfoldable pub mark_reason : Verdict → MarkReason
mark_reason disconnected = disconnected_first_seen
mark_reason idle = idle_first_seen
mark_reason other = gone_first_seen

-- `record.lastSeenAt ?? 0`
unfoldable pub or_zero : Option ℕ → ℕ
or_zero none = 0
or_zero (some n) = n

unfoldable pub is_none : Option ℕ → Bool
is_none none = true
is_none (some n) = false

abbrev pub max : ℕ → ℕ → ℕ
max a b = if ltb a b then b else a

unfoldable pub bill_of : String → WhipResource → Verdict → SweepBill
unfolding build_whip_meter_line resolve_whip_meter or_zero is_none
bill_of resource_id r verdict = record {
  resource_id = resource_id;
  org = r.org;
  line =
      build_whip_meter_line resource_id r.started_at
        (max (or_zero r.last_seen_at) (r.started_at + 1)) (resolve_whip_meter r.meter);
  verdict = verdict;
  never_seen_alive = is_none r.last_seen_at;
}

-- The gate that every sign of death goes through. The differences of the source, which are signed, are
-- written as sums.
unfoldable pub confirm : String → WhipResource → Verdict → ℕ → Option ℕ → SweepAction
unfolding bill_of mark_reason
confirm resource_id r verdict at none =
    mark_with (record r { disconnected_since = some at }) (mark_reason verdict)
confirm resource_id r verdict at (some since) =
    if ltb at (since + whip_gone_confirm_ms) then skip else bill (bill_of resource_id r verdict)

-- An idle session is a candidate only if it was seen alive and is past the grace.
unfoldable pub idle_survives : WhipResource → ℕ → Option ℕ → Bool
idle_survives r at none = true
idle_survives r at (some seen) = leb at (r.started_at + whip_idle_grace_ms)

unfoldable pub sweep_action : String → WhipResource → Verdict → ℕ → SweepAction
unfolding confirm idle_survives
sweep_action resource_id r unknown at = skip
sweep_action resource_id r alive at =
    refresh_with (record r { last_seen_at = some at; disconnected_since = none })
sweep_action resource_id r idle at =
    if idle_survives r at r.last_seen_at
    then skip
    else confirm resource_id r idle at r.disconnected_since
sweep_action resource_id r gone at = confirm resource_id r gone at r.disconnected_since
sweep_action resource_id r disconnected at =
    confirm resource_id r disconnected at r.disconnected_since

unfoldable pub or_now : ℕ → Option ℕ → ℕ
or_now now none = now
or_now now (some at) = at

unfoldable pub action_of : ℕ → WhipSweepEntry → SweepAction
unfolding sweep_action or_now
action_of now e = sweep_action e.resource_id e.resource e.verdict (or_now now e.observed_at)

unfoldable pub push_action : String → SweepAction → WhipSweepPlan → WhipSweepPlan
push_action resource_id skip plan = plan
push_action resource_id (refresh_with r) plan = record plan {
  refresh = plan.refresh ++ (record { resource_id = resource_id; resource = r }) ∷ [];
}
push_action resource_id (mark_with r reason) plan = record plan {
  mark =
      plan.mark
      ++ (record { write = record { resource_id = resource_id; resource = r }; reason = reason })
        ∷ [];
}
push_action resource_id (bill b) plan = record plan {
  meter = plan.meter ++ b ∷ [];
  drop_ids = plan.drop_ids ++ resource_id ∷ [];
}

unfoldable pub plan_from : ℕ → List WhipSweepEntry → WhipSweepPlan → WhipSweepPlan
unfolding action_of push_action
plan_from now [] plan = plan
plan_from now (e ∷ es) plan = plan_from now es (push_action e.resource_id (action_of now e) plan)

abbrev pub empty_plan : WhipSweepPlan
empty_plan = record { refresh = []; meter = []; drop_ids = []; mark = [] }

unfoldable pub plan_whip_sweep : List WhipSweepEntry → ℕ → WhipSweepPlan
unfolding plan_from
plan_whip_sweep entries now = plan_from now entries empty_plan
