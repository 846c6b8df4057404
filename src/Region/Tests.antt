-- ===== src/Region/Tests.antt =====
-- The theorems on the regions at concrete continents.
use wave_realtime_edge.Common.{
  String, str_eq, ◌≡◌, refl, Bool, true, false, some, List, [], ◌∷◌, length, if◌then◌else◌, get,
}
use wave_realtime_edge.Region.Residency.{
  placed, placement_for_continent, placement_for_continent-zone,
}
use wave_realtime_edge.Region.Cascade.{
  CascadeRegion, region_from_continent, distribution_ladder, nearest_healthy_region, wnam, enam,
  sam, weur, eeur, apac, oc, afr, me,
}
use wave_realtime_edge.Region.Ladder.{
  IsFirst, IsFull, head_of, distribution_ladder-region_from_continent,
  nearest_healthy_region-IsFirst,
}

-- A toUpperCase that knows one text.
abbrev upper_one : String → String
upper_one s = if str_eq s "eu" then "EU" else s

placement_for_continent-zone_example :
    placement_for_continent upper_one "eu"
    ≡ placed (record { zone = "eu-west"; binding = "RT_RECORDINGS_EU" })
placement_for_continent-zone_example = placement_for_continent-zone upper_one "eu"

abbrev europe : List CascadeRegion
europe = weur ∷ eeur ∷ me ∷ enam ∷ afr ∷ wnam ∷ apac ∷ sam ∷ oc ∷ []

distribution_ladder-region_from_continent_example :
    IsFull europe × (length europe ≡ 9) × (head_of europe ≡ region_from_continent upper_one "eu")
unfolding distribution_ladder get
distribution_ladder-region_from_continent_example =
    distribution_ladder-region_from_continent upper_one "eu" europe refl

-- Only one region is up.
abbrev only_oceania : CascadeRegion → Bool
only_oceania oc = true
only_oceania _ = false

nearest_healthy_region-IsFirst_example :
    (best : CascadeRegion) × (nearest_healthy_region upper_one "eu" only_oceania ≡ some best)
    × IsFirst only_oceania best europe
unfolding distribution_ladder get
nearest_healthy_region-IsFirst_example =
    nearest_healthy_region-IsFirst upper_one "eu" europe only_oceania oc refl refl
