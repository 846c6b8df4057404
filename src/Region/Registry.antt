-- ===== src/Region/Registry.antt =====
-- src/region-registry.ts: the table of regions and what is derived from it. `to_upper` stands for the
-- platform's toUpperCase; null, undefined and the empty text are the empty text.
use wave_realtime_edge.Common.{
  String, str_eq, Bool, true, false, Option, none, some, List, [], ◌∷◌, map, keep, if◌then◌else◌,
  includes,
}

pub data R2Jurisdiction : Type 0 where
  default_jurisdiction : R2Jurisdiction
  eu : R2Jurisdiction
  fedramp : R2Jurisdiction

pub record RegionEntry : Type 0 where
  pub zone : String
  pub continents : List String
  pub binding : String
  pub bucket_name : String
  pub jurisdiction : R2Jurisdiction
  pub cascade_hint : String
  pub enabled : Bool

abbrev pub us_east : RegionEntry
us_east = record {
  zone = "us-east";
  continents = "NA" ∷ [];
  binding = "RT_RECORDINGS_ENAM";
  bucket_name = "wave-recordings-enam";
  jurisdiction = default_jurisdiction;
  cascade_hint = "enam";
  enabled = true;
}

abbrev pub eu_west : RegionEntry
eu_west = record {
  zone = "eu-west";
  continents = "EU" ∷ [];
  binding = "RT_RECORDINGS_EU";
  bucket_name = "wave-recordings-eu";
  jurisdiction = eu;
  cascade_hint = "weur";
  enabled = true;
}

abbrev pub ap_southeast : RegionEntry
ap_southeast = record {
  zone = "ap-southeast";
  continents = "AS" ∷ "OC" ∷ [];
  binding = "RT_RECORDINGS_APAC";
  bucket_name = "wave-recordings-apac";
  jurisdiction = default_jurisdiction;
  cascade_hint = "apac";
  enabled = true;
}

abbrev pub sa_east : RegionEntry
sa_east = record {
  zone = "sa-east";
  continents = "SA" ∷ [];
  binding = "RT_RECORDINGS_SAM";
  bucket_name = "wave-recordings-sam";
  jurisdiction = default_jurisdiction;
  cascade_hint = "sam";
  enabled = true;
}

unfoldable pub region_registry : List RegionEntry
region_registry = us_east ∷ eu_west ∷ ap_southeast ∷ sa_east ∷ []

unfoldable pub active_regions : List RegionEntry
unfolding region_registry keep
active_regions = keep (λ (r : RegionEntry). r.enabled) region_registry

-- `xs.find(p) ?? null`
unfoldable pub find {ℓ} : {A : Type ℓ} → (A → Bool) → List A → Option A
find p [] = none
find p (x ∷ xs) = let later = find p xs in if p x then some x else later

unfoldable pub region_for_continent : (String → String) → String → Option RegionEntry
unfolding active_regions find includes
region_for_continent to_upper continent =
    if str_eq continent ""
    then none
    else find (λ (r : RegionEntry). includes r.continents (to_upper continent)) active_regions

unfoldable pub region_for_zone : String → Option RegionEntry
unfolding active_regions find
region_for_zone zone =
    if str_eq zone "" then none else find (λ (r : RegionEntry). str_eq r.zone zone) active_regions

unfoldable pub region_for_binding : String → Option RegionEntry
unfolding active_regions find
region_for_binding binding =
    if str_eq binding ""
    then none
    else find (λ (r : RegionEntry). str_eq r.binding binding) active_regions

unfoldable pub active_zones : List String
unfolding active_regions
active_zones = map (λ (r : RegionEntry). r.zone) active_regions

abbrev is_some {ℓ} : {A : Type ℓ} → Option A → Bool
is_some none = false
is_some (some a) = true

unfoldable pub is_active_zone : String → Bool
unfolding region_for_zone
is_active_zone zone = is_some (region_for_zone zone)
