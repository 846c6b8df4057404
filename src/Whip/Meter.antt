-- ===== src/Whip/Meter.antt =====
-- src/whip-meter.ts: the meter line of a WHIP publish and its delivery to the gateway. The request is a
-- parameter.
use wave_realtime_edge.Common.{
  ℕ, ◌+◌, ◌-◌, ◌/◌, String, Bool, true, false, not, Option, none, some, List, [], ◌∷◌, ltb,
  if◌then◌else◌, includes,
}

pub record MeterLine : Type 0 where
  pub meter : String
  pub meter_value : ℕ
  pub event_id : String

pub record UsageEnvelope : Type 0 where
  pub org : String
  pub usage : MeterLine

abbrev pub meter_whip_ingest_minutes : String
meter_whip_ingest_minutes = "wave_whip_ingest_minutes"

abbrev pub meter_stream_bridge_minutes : String
meter_stream_bridge_minutes = "wave_stream_bridge_minutes"

abbrev pub whip_meter_override_allow : List String
whip_meter_override_allow = meter_stream_bridge_minutes ∷ []

-- The empty override, which the source tests for, is not on the list.
unfoldable pub resolve_whip_meter : Option String → String
unfolding includes
resolve_whip_meter none = meter_whip_ingest_minutes
resolve_whip_meter (some override) =
    if includes whip_meter_override_allow override then override else meter_whip_ingest_minutes

-- `Math.ceil(ms / 60_000)` if `ms > 0`, else 0.
unfoldable pub ceil_minutes : ℕ → ℕ
ceil_minutes ms = if ltb 0 ms then (ms + 59999) / 60000 else 0

unfoldable pub build_whip_meter_line : String → ℕ → ℕ → String → MeterLine
unfolding ceil_minutes
build_whip_meter_line resource_id started_at ended_at meter = record {
  meter = meter;
  meter_value = ceil_minutes (ended_at - started_at);
  event_id = resource_id;
}

-- `deliverWhipTeardownMeter`. The request gives whether its response is ok, or throws.
unfoldable pub deliver_whip_teardown_meter :
    Bool → (UsageEnvelope → Option Bool) → String → MeterLine → Bool
deliver_whip_teardown_meter provisioned fetch org line =
    if not provisioned
    then false
    else if not (ltb 0 line.meter_value)
    then true
    else elim (fetch (record { org = org; usage = line })) [ none ↦ false | some ok ↦ ok ]
