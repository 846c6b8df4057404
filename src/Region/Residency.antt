-- ===== src/Region/Residency.antt =====
-- src/residency-rt.ts: the zone, the bucket and the key of a recording.
use Prim.Native.String.{◌++◌ as append}
use wave_realtime_edge.Common.{
  ◌||◌, eq_iff, String, str_eq, ◌≡◌, Bool, Option, none, some, List, arith, keep, if◌then◌else◌,
  includes,
}
use wave_realtime_edge.Region.Registry.{
  RegionEntry, region_registry, active_regions, find, region_for_continent, region_for_zone,
  active_zones, is_active_zone,
}

pub record RtResidencyPlacement : Type 0 where
  pub zone : String
  pub binding : String

abbrev pub map_option {ℓ κ} : {A : Type ℓ} {B : Type κ} → (A → B) → Option A → Option B
map_option f none = none
map_option f (some a) = some (f a)

unfoldable pub zone_from_continent : (String → String) → String → Option String
unfolding region_for_continent
zone_from_continent to_upper continent =
    map_option (λ (r : RegionEntry). r.zone) (region_for_continent to_upper continent)

-- `none` where the source throws.
unfoldable pub binding_for_zone : String → Option String
unfolding region_for_zone
binding_for_zone zone = map_option (λ (r : RegionEntry). r.binding) (region_for_zone zone)

pub data Placement : Type 0 where
  threw : Placement
  default_path : Placement
  placed : RtResidencyPlacement → Placement

abbrev pub placed_at : String → Option String → Placement
placed_at zone none = threw
placed_at zone (some binding) = placed (record { zone = zone; binding = binding })

abbrev pub placement_of : Option String → Placement
placement_of none = default_path
placement_of (some zone) = placed_at zone (binding_for_zone zone)

unfoldable pub placement_for_continent : (String → String) → String → Placement
unfolding zone_from_continent binding_for_zone
placement_for_continent to_upper continent =
    let zone = zone_from_continent to_upper continent in
    elim zone [
      | none ↦ default_path
      | some z ↦ if str_eq z "" then default_path else placed_at z (binding_for_zone z)
    ]

-- The placement that a viewer of a continent should get, by the continent's code: the documented zone of
-- each continent with its bucket's binding, and the default path for any other text.
abbrev pub zone_of_continent : String → Placement
zone_of_continent code =
    if str_eq code "NA"
    then placed (record { zone = "us-east"; binding = "RT_RECORDINGS_ENAM" })
    else if str_eq code "EU"
    then placed (record { zone = "eu-west"; binding = "RT_RECORDINGS_EU" })
    else if str_eq code "AS" || str_eq code "OC"
    then placed (record { zone = "ap-southeast"; binding = "RT_RECORDINGS_APAC" })
    else if str_eq code "SA"
    then placed (record { zone = "sa-east"; binding = "RT_RECORDINGS_SAM" })
    else default_path

-- A placement never throws. By the continent in capitals, NA is placed in us-east, EU in eu-west, AS and
-- OC in ap-southeast and SA in sa-east, each with the binding of that zone's own bucket; every other text
-- and the empty one take the default path.
pub placement_for_continent-zone :
    (to_upper : String → String) (continent : String)
    → placement_for_continent to_upper continent
      ≡ (if str_eq continent "" then default_path else zone_of_continent (to_upper continent))
unfolding placement_for_continent zone_from_continent binding_for_zone region_for_continent
    region_for_zone active_regions region_registry find includes keep
placement_for_continent-zone to_upper continent =
    let code = to_upper continent in
    ground (
      arith,
      eq_iff code "NA",
      eq_iff code "EU",
      eq_iff code "AS",
      eq_iff code "OC",
      eq_iff code "SA",
      eq_iff "NA" code,
      eq_iff "EU" code,
      eq_iff "AS" code,
      eq_iff "OC" code,
      eq_iff "SA" code,
    )

unfoldable pub is_rt_residency_zone : String → Bool
unfolding is_active_zone
is_rt_residency_zone zone = is_active_zone zone

unfoldable pub active_residency_zones : List String
unfolding active_zones
active_residency_zones = active_zones

unfoldable pub residency_recording_key : String → String → String → String → String
residency_recording_key org region session_id ext = append org (
    append "/realtime-recordings/"
      (append region (append "/" (append session_id (append "/recording." ext)))))
