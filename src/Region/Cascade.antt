-- ===== src/Region/Cascade.antt =====
-- src/cascade.ts: the regions of the cascade, the keys of its relays and the ladder of each continent.
use Prim.Native.String.{◌++◌ as append}
use wave_realtime_edge.Common.{
  String, str_eq, Bool, Option, none, some, List, [], ◌∷◌, map, if◌then◌else◌, Dict, get, includes,
}
use wave_realtime_edge.Region.Registry.{find}

pub data CascadeRegion : Type 0 where
  wnam enam sam weur eeur apac oc afr me : CascadeRegion

abbrev pub cascade_regions : List CascadeRegion
cascade_regions = wnam ∷ enam ∷ sam ∷ weur ∷ eeur ∷ apac ∷ oc ∷ afr ∷ me ∷ []

abbrev pub continent_to_region : Dict CascadeRegion
continent_to_region =
    ("NA", enam)
    ∷ ("SA", sam)
    ∷ ("EU", weur)
    ∷ ("AS", apac)
    ∷ ("AF", afr)
    ∷ ("OC", oc)
    ∷ ("AN", weur)
    ∷ []

abbrev pub continent_ladder : Dict (List CascadeRegion)
continent_ladder =
    ("NA", enam ∷ wnam ∷ sam ∷ weur ∷ eeur ∷ apac ∷ oc ∷ me ∷ afr ∷ [])
    ∷ ("SA", sam ∷ enam ∷ wnam ∷ weur ∷ afr ∷ eeur ∷ me ∷ apac ∷ oc ∷ [])
    ∷ ("EU", weur ∷ eeur ∷ me ∷ enam ∷ afr ∷ wnam ∷ apac ∷ sam ∷ oc ∷ [])
    ∷ ("AS", apac ∷ me ∷ oc ∷ eeur ∷ wnam ∷ weur ∷ enam ∷ afr ∷ sam ∷ [])
    ∷ ("AF", afr ∷ me ∷ weur ∷ sam ∷ eeur ∷ enam ∷ apac ∷ wnam ∷ oc ∷ [])
    ∷ ("OC", oc ∷ apac ∷ wnam ∷ me ∷ enam ∷ eeur ∷ weur ∷ sam ∷ afr ∷ [])
    ∷ ("AN", weur ∷ eeur ∷ me ∷ enam ∷ afr ∷ wnam ∷ apac ∷ sam ∷ oc ∷ [])
    ∷ []

unfoldable pub region_from_continent : (String → String) → String → Option CascadeRegion
unfolding get
region_from_continent to_upper continent =
    if str_eq continent "" then none else get (to_upper continent) continent_to_region

unfoldable pub distribution_ladder : (String → String) → String → Option (List CascadeRegion)
unfolding get
distribution_ladder to_upper continent =
    if str_eq continent "" then none else get (to_upper continent) continent_ladder

-- `for (const region of ladder) { if (isHealthy(region)) return region; } return null;`
abbrev pub nearest_in : Option (List CascadeRegion) → (CascadeRegion → Bool) → Option CascadeRegion
nearest_in none is_healthy = none
nearest_in (some ladder) is_healthy = find is_healthy ladder

unfoldable pub nearest_healthy_region :
    (String → String) → String → (CascadeRegion → Bool) → Option CascadeRegion
unfolding distribution_ladder find
nearest_healthy_region to_upper continent is_healthy =
    nearest_in (distribution_ladder to_upper continent) is_healthy

-- The text that a region is in the source.
abbrev pub region_name : CascadeRegion → String
region_name wnam = "wnam"
region_name enam = "enam"
region_name sam = "sam"
region_name weur = "weur"
region_name eeur = "eeur"
region_name apac = "apac"
region_name oc = "oc"
region_name afr = "afr"
region_name me = "me"

unfoldable pub is_cascade_region : String → Bool
unfolding includes
is_cascade_region v = includes (map region_name cascade_regions) v

unfoldable pub primary_room_key : String → String → String
primary_room_key org room = append org (append ":" room)

unfoldable pub relay_room_key : String → String → CascadeRegion → String
unfolding primary_room_key
relay_room_key org room region =
    append (primary_room_key org room) (append ":" (region_name region))

abbrev pub relay_location_hint : CascadeRegion → CascadeRegion
relay_location_hint region = region

pub record RelayPlacement : Type 0 where
  pub region : CascadeRegion
  pub key : String
  pub location_hint : CascadeRegion

unfoldable pub relay_placement : String → String → CascadeRegion → RelayPlacement
unfolding relay_room_key
relay_placement org room region = record {
  region = region;
  key = relay_room_key org room region;
  location_hint = relay_location_hint region;
}
