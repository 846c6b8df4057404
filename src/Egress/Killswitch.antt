-- ===== src/Egress/Killswitch.antt =====
-- src/egress-killswitch.ts: the registry of armed streams over a key-value store, the caps, the sweep and
-- the kill switch. The platform's JSON is a parameter. An await of a store call is a step of its own only
-- where two clients interleave; here each operation runs on the store that it is given, as it does for one
-- client. What `disarm` does outside is the list of its calls: an exception of it is swallowed.
use wave_realtime_edge.Common.{
  ℕ, ◌+◌, ◌*◌, String, str_eq, Bool, false, not, Option, none, some, List, [], ◌∷◌, ◌++◌, map,
  length, keep, leb, ◌==◌, if◌then◌else◌, Dict, get, put, del, includes,
}

pub record ArmedStream : Type 0 where
  pub stream_id : String
  pub org_id : String
  pub armed_at : ℕ

-- What JSON.parse makes of a text: it throws, or the value is no array, or the elements of the array, each
-- with the three fields of an ArmedStream or without them.
pub data Parsed : Type 0 where
  syntax_error : Parsed
  not_array : Parsed
  array : List (Option ArmedStream) → Parsed

abbrev pub KillswitchStore : Type 0
KillswitchStore = Dict String

abbrev pub registry_key : String
registry_key = "egress:armed-registry"

abbrev pub killswitch_key : String
killswitch_key = "egress:killswitch"

-- The filter on the type of the elements.
unfoldable pub well_formed : List (Option ArmedStream) → List ArmedStream
well_formed [] = []
well_formed (none ∷ es) = well_formed es
well_formed (some e ∷ es) = e ∷ well_formed es

unfoldable pub entries_of : Parsed → List ArmedStream
unfolding well_formed
entries_of syntax_error = []
entries_of not_array = []
entries_of (array es) = well_formed es

abbrev pub is_stream : String → ArmedStream → Bool
is_stream stream_id e = str_eq e.stream_id stream_id

abbrev pub is_of_org : String → ArmedStream → Bool
is_of_org org_id e = str_eq e.org_id org_id

pub record ConcurrencyLimits : Type 0 where
  pub per_org : ℕ
  pub global : ℕ

abbrev pub default_concurrency_limits : ConcurrencyLimits
default_concurrency_limits = record { per_org = 25; global = 500 }

pub data ArmDecision : Type 0 where
  may_arm : ArmDecision
  killswitch : ArmDecision
  org_cap : ArmDecision
  global_cap : ArmDecision

-- The decision on what was read from the registry.
unfoldable pub within_caps : List ArmedStream → String → ConcurrencyLimits → ArmDecision
unfolding keep
within_caps armed org_id limits =
    if leb limits.per_org (length (keep (is_of_org org_id) armed))
    then org_cap
    else if leb limits.global (length armed)
    then global_cap
    else may_arm

abbrev pub default_max_duration_ms : ℕ
default_max_duration_ms = 6 * 60 * 60000

-- `now - armedAt >= maxDurationMs`, without the subtraction, which the source does on signed numbers.
unfoldable pub is_expired : ℕ → ℕ → ℕ → Bool
is_expired armed_at now max_duration_ms = leb (armed_at + max_duration_ms) now

-- `new Set(ids)`, in order of insertion.
unfoldable pub set_from : List String → List String → List String
unfolding includes
set_from seen [] = seen
set_from seen (x ∷ xs) = set_from (if includes seen x then seen else seen ++ x ∷ []) xs

abbrev pub call_of : ArmedStream → String × String
call_of e = (e.stream_id, e.org_id)

pub record Teardown : Type 0 where
  pub store : KillswitchStore
  pub disarmed : List (String × String)
  pub stream_ids : List String

unfoldable pub is_kill_switch_active : KillswitchStore → Bool
unfolding get
is_kill_switch_active store = elim (get killswitch_key store) [
  | none ↦ false
  | some flag ↦ str_eq flag "1"
]

unfoldable pub deactivate_kill_switch : KillswitchStore → KillswitchStore
unfolding del
deactivate_kill_switch store = del killswitch_key store

module _ (json_stringify : List ArmedStream → String) (json_parse : String → Parsed) where
  unfoldable pub read_registry : KillswitchStore → List ArmedStream
  unfolding get entries_of
  read_registry store = elim (get registry_key store) [
    | none ↦ []
    | some raw ↦ if str_eq raw "" then [] else entries_of (json_parse raw)
  ]

  unfoldable pub write_registry : List ArmedStream → KillswitchStore → KillswitchStore
  unfolding put
  write_registry entries store = put registry_key (json_stringify entries) store

  unfoldable pub list_armed : KillswitchStore → List ArmedStream
  unfolding read_registry
  list_armed store = read_registry store

  unfoldable pub register_armed : String → String → ℕ → KillswitchStore → KillswitchStore
  unfolding read_registry write_registry keep
  register_armed org_id stream_id now store =
      let others = keep (λ e. not (is_stream stream_id e)) (read_registry store) in
      let entry : ArmedStream = record { stream_id = stream_id; org_id = org_id; armed_at = now } in
      write_registry (others ++ entry ∷ []) store

  unfoldable pub register_disarmed : String → KillswitchStore → KillswitchStore
  unfolding read_registry write_registry keep
  register_disarmed stream_id store =
      write_registry (keep (λ e. not (is_stream stream_id e)) (read_registry store)) store

  unfoldable pub evaluate_arm : String → ConcurrencyLimits → KillswitchStore → ArmDecision
  unfolding is_kill_switch_active read_registry within_caps
  evaluate_arm org_id limits store =
      if is_kill_switch_active store
      then killswitch
      else within_caps (read_registry store) org_id limits

  -- `sweepExpired` after its early return.
  unfoldable pub sweep : List ArmedStream → List ArmedStream → KillswitchStore → Teardown
  unfolding write_registry set_from keep
  sweep armed expired store =
      let expired_ids = set_from [] (map (λ e. e.stream_id) expired) in
      record {
        store = write_registry (keep (λ e. not (includes expired_ids e.stream_id)) armed) store;
        disarmed = map call_of expired;
        stream_ids = expired_ids;
      }

  unfoldable pub sweep_expired : ℕ → ℕ → KillswitchStore → Teardown
  unfolding read_registry is_expired sweep keep
  sweep_expired now max_duration_ms store =
      let armed = read_registry store in
      let expired = keep (λ e. is_expired e.armed_at now max_duration_ms) armed in
      if length expired == 0
      then record { store = store; disarmed = []; stream_ids = [] }
      else sweep armed expired store

  unfoldable pub activate_kill_switch : KillswitchStore → Teardown
  unfolding read_registry write_registry put
  activate_kill_switch store =
      let flagged = put killswitch_key "1" store in
      let armed = read_registry flagged in
      record {
        store = write_registry [] flagged;
        disarmed = map call_of armed;
        stream_ids = map (λ e. e.stream_id) armed;
      }
