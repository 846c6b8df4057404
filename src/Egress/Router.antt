-- ===== src/Egress/Router.antt =====
-- src/egress-router.ts: the egress decision. A job comes from parsed JSON, so its fields are strings and
-- numbers of any kind until `validate_egress_job` has looked at them.
use wave_realtime_edge.Common.{
  ℕ, String, Bool, true, false, ◌||◌, not, Option, none, some, List, [], ◌∷◌, ◌++◌, ltb, leb,
  if◌then◌else◌, includes,
}

-- A value in a number's place, as far as the router tells one from another: a natural number, a number
-- strictly between two neighbours, a negative number, or one that is not finite or no number at all.
pub data Num : Type 0 where
  natural : ℕ → Num
  between : ℕ → Num
  negative : Num
  not_finite : Num

-- A value in a Boolean's place: a Boolean, or another value with the truth that an `if` gives it.
pub data Flag : Type 0 where
  boolean : Bool → Flag
  other : Bool → Flag

abbrev pub truthy : Flag → Bool
truthy (boolean b) = b
truthy (other b) = b

-- `Number.isInteger(n) && n >= least`
unfoldable pub is_integer_from : ℕ → Num → Bool
is_integer_from least (natural n) = leb least n
is_integer_from least (between n) = false
is_integer_from least negative = false
is_integer_from least not_finite = false

-- `Number.isFinite(n) && n > 0`
unfoldable pub is_positive : Num → Bool
is_positive (natural n) = ltb 0 n
is_positive (between n) = true
is_positive negative = false
is_positive not_finite = false

-- `n > bound`
unfoldable pub exceeds : Num → ℕ → Bool
exceeds (natural n) bound = ltb bound n
exceeds (between n) bound = leb bound n
exceeds negative bound = false
exceeds not_finite bound = false

-- `rank > n`
unfoldable pub is_above : ℕ → Num → Bool
is_above rank (natural n) = ltb n rank
is_above rank (between n) = ltb n rank
is_above rank negative = true
is_above rank not_finite = false

pub data EgressBackend : Type 0 where
  cf_stream : EgressBackend
  wave_render : EgressBackend
  runpod_nvenc : EgressBackend

abbrev pub egress_outputs : List String
egress_outputs = "record" ∷ "simulcast" ∷ []

abbrev pub egress_latencies : List String
egress_latencies = "batch" ∷ "nearRealTime" ∷ "realTime" ∷ []

abbrev pub egress_codecs : List String
egress_codecs = "h264" ∷ "hevc" ∷ "av1" ∷ "vp8" ∷ "vp9" ∷ []

pub record EgressJob : Type 0 where
  pub needs_compositing : Flag
  pub source_count : Num
  pub width : Num
  pub height : Num
  pub output : String
  pub latency : String
  pub codec : String
  pub max_cost_rank : Option Num

-- The reasons, without their texts: which check refused the job.
pub data Fault : Type 0 where
  bad_needs_compositing : Fault
  bad_source_count : Fault
  bad_width : Fault
  bad_height : Fault
  bad_output : Fault
  bad_latency : Fault
  bad_codec : Fault
  bad_max_cost_rank : Fault

pub data Limit : Type 0 where
  cannot_composite : Limit
  routes_to_passthrough : Limit
  too_many_sources : Limit
  too_large : Limit
  codec_outside : Limit
  latency_outside : Limit

pub data Exclusion : Type 0 where
  over_ceiling : EgressBackend → Exclusion
  incapable : EgressBackend → Limit → Exclusion

pub data EgressDecision : Type 0 where
  routed : EgressBackend → ℕ → EgressDecision
  malformed : Fault → EgressDecision
  no_backend : List Exclusion → EgressDecision

abbrev pub max_sources : ℕ
max_sources = 9

abbrev pub max_width : ℕ
max_width = 1920

abbrev pub max_height : ℕ
max_height = 1080

abbrev pub wave_render_codecs : List String
wave_render_codecs = "h264" ∷ []

abbrev pub wave_render_latencies : List String
wave_render_latencies = "batch" ∷ "nearRealTime" ∷ []

pub record EgressTier : Type 0 where
  pub backend : EgressBackend
  pub cost_rank : ℕ
  pub capable : EgressJob → Option Limit

unfoldable pub cf_stream_limit : EgressJob → Option Limit
cf_stream_limit job = if truthy job.needs_compositing then some cannot_composite else none

unfoldable pub wave_render_limit : EgressJob → Option Limit
unfolding exceeds includes
wave_render_limit job =
    if not (truthy job.needs_compositing)
    then some routes_to_passthrough
    else if exceeds job.source_count max_sources
    then some too_many_sources
    else if exceeds job.width max_width || exceeds job.height max_height
    then some too_large
    else if not (includes wave_render_codecs job.codec)
    then some codec_outside
    else if not (includes wave_render_latencies job.latency)
    then some latency_outside
    else none

unfoldable pub runpod_nvenc_limit : EgressJob → Option Limit
runpod_nvenc_limit job = if truthy job.needs_compositing then none else some routes_to_passthrough

unfoldable pub egress_routing_table : List EgressTier
unfolding cf_stream_limit wave_render_limit runpod_nvenc_limit
egress_routing_table =
    record { backend = cf_stream; cost_rank = 0; capable = cf_stream_limit }
    ∷ record { backend = wave_render; cost_rank = 1; capable = wave_render_limit }
    ∷ record { backend = runpod_nvenc; cost_rank = 2; capable = runpod_nvenc_limit }
    ∷ []

abbrev pub is_boolean : Flag → Bool
is_boolean (boolean b) = true
is_boolean (other b) = false

-- `job.maxCostRank === undefined`, or an integer that is not negative
unfoldable pub is_ceiling : Option Num → Bool
unfolding is_integer_from
is_ceiling none = true
is_ceiling (some n) = is_integer_from 0 n

unfoldable pub validate_egress_job : EgressJob → Option Fault
unfolding is_integer_from is_positive is_ceiling includes
validate_egress_job job =
    if not (is_boolean job.needs_compositing)
    then some bad_needs_compositing
    else if not (is_integer_from 1 job.source_count)
    then some bad_source_count
    else if not (is_positive job.width)
    then some bad_width
    else if not (is_positive job.height)
    then some bad_height
    else if not (includes egress_outputs job.output)
    then some bad_output
    else if not (includes egress_latencies job.latency)
    then some bad_latency
    else if not (includes egress_codecs job.codec)
    then some bad_codec
    else if not (is_ceiling job.max_cost_rank)
    then some bad_max_cost_rank
    else none

-- `job.maxCostRank !== undefined && tier.costRank > job.maxCostRank`
unfoldable pub is_over : Option Num → ℕ → Bool
unfolding is_above
is_over none rank = false
is_over (some ceiling) rank = is_above rank ceiling

-- What one round of the loop finds against a tier, if anything.
unfoldable pub exclusion : EgressJob → EgressTier → Option Exclusion
unfolding is_over
exclusion job tier =
    if is_over job.max_cost_rank tier.cost_rank
    then some (over_ceiling tier.backend)
    else elim (tier.capable job) [ none ↦ none | some why ↦ some (incapable tier.backend why) ]

-- The loop over the routing table, with the exclusions so far.
unfoldable pub walk : EgressJob → List Exclusion → List EgressTier → EgressDecision
unfolding exclusion
walk job exclusions [] = no_backend exclusions
walk job exclusions (tier ∷ tiers) = elim (exclusion job tier) [
  | none ↦ routed tier.backend tier.cost_rank
  | some e ↦ walk job (exclusions ++ (e ∷ [])) tiers
]

unfoldable pub egress_route : EgressJob → EgressDecision
unfolding validate_egress_job walk egress_routing_table
egress_route job = elim (validate_egress_job job) [
  | some invalid ↦ malformed invalid
  | none ↦ walk job [] egress_routing_table
]
