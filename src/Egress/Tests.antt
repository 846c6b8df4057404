-- ===== src/Egress/Tests.antt =====
-- The theorems on the routed egress at concrete jobs.
use wave_realtime_edge.Common.{
  String, ◌≡◌, refl, ◌≢◌, true, false, none, some, List, [], ◌∷◌, length, All, includes,
}
use wave_realtime_edge.Egress.Router.{
  is_integer_from, is_positive, exceeds, is_above, EgressJob, Exclusion, EgressTier,
  cf_stream_limit, wave_render_limit, runpod_nvenc_limit, egress_routing_table, is_ceiling,
  validate_egress_job, is_over, exclusion, walk, egress_route, natural, boolean, cf_stream,
  wave_render, runpod_nvenc, cannot_composite, too_large, over_ceiling, incapable,
}
use wave_realtime_edge.Egress.Choice.{
  IsCheapest, IsTier, egress_route-IsCheapest, home, egress_route-home, egress_route-refuses,
}
use wave_realtime_edge.Egress.Killswitch.{
  ArmedStream, Parsed, default_concurrency_limits, evaluate_arm, activate_kill_switch, array,
  killswitch,
}
use wave_realtime_edge.Egress.Halt.{Request, perform_all, evaluate_arm-killswitch}

-- A 4K composite: too large for wave-render.
abbrev composite : EgressJob
composite = record {
  needs_compositing = boolean true;
  source_count = natural 4;
  width = natural 3840;
  height = natural 2160;
  output = "record";
  latency = "batch";
  codec = "h264";
  max_cost_rank = none;
}

abbrev capped : EgressJob
capped = record composite { max_cost_rank = some (natural 1) }

egress_route-IsCheapest_example :
    (validate_egress_job composite ≡ none)
    × (is_over none 2 ≡ false)
    × IsTier composite runpod_nvenc 2 egress_routing_table
    × IsCheapest composite 2 egress_routing_table
unfolding egress_route validate_egress_job is_integer_from is_positive is_ceiling includes walk
    exclusion is_over egress_routing_table cf_stream_limit wave_render_limit runpod_nvenc_limit
    exceeds
egress_route-IsCheapest_example = egress_route-IsCheapest composite runpod_nvenc 2 refl

egress_route-home_example : egress_route composite ≡ home composite
unfolding validate_egress_job is_integer_from is_positive is_ceiling includes
egress_route-home_example = egress_route-home composite refl refl

abbrev reasons : List Exclusion
reasons =
    incapable cf_stream cannot_composite
    ∷ incapable wave_render too_large
    ∷ over_ceiling runpod_nvenc
    ∷ []

egress_route-refuses_example :
    (validate_egress_job capped ≡ none)
    × (some (natural 1) ≢ none)
    × All (λ (t : EgressTier). exclusion capped t ≢ none) egress_routing_table
    × (length reasons ≡ length egress_routing_table)
unfolding egress_route validate_egress_job is_integer_from is_positive is_ceiling includes walk
    exclusion is_over is_above egress_routing_table cf_stream_limit wave_render_limit
    runpod_nvenc_limit exceeds
egress_route-refuses_example = egress_route-refuses capped reasons refl

-- The text of every list, and how every text reads.
abbrev stringify_none : List ArmedStream → String
stringify_none es = "[]"

abbrev parse_none : String → Parsed
parse_none raw = array []

evaluate_arm-killswitch_example :
    evaluate_arm stringify_none parse_none "acme" default_concurrency_limits (
      perform_all stringify_none parse_none
        (Request.arm "acme" "s1" 7 ∷ [])
        (activate_kill_switch stringify_none parse_none []).store)
    ≡ killswitch
evaluate_arm-killswitch_example =
    evaluate_arm-killswitch stringify_none parse_none (Request.arm "acme" "s1" 7 ∷ []) [] "acme"
      default_concurrency_limits
