-- ===== src/Region/Ladder.antt =====
-- src/cascade.ts: the ladders and the choice of a region on them.
use mathlib.Core.Option.{some-injective}
use wave_realtime_edge.Common.{
  ℕ, String, str_eq, ◌≡◌, refl, sym, ap, subst, ◌∙◌, ◌⊎◌, inl, inr, Bool, true, false, ◌&&◌, ◌||◌,
  Option, none, some, List, [], ◌∷◌, ◌++◌, arith, length, All, ◌==◌, if◌then◌else◌, Dict, get,
  Bool-cases,
}
use wave_realtime_edge.Region.Registry.{find}
use wave_realtime_edge.Region.Cascade.{
  CascadeRegion, cascade_regions, continent_to_region, continent_ladder, region_from_continent,
  distribution_ladder, nearest_in, nearest_healthy_region, wnam, enam, sam, weur, eeur, apac, oc,
  afr, me,
}

-- Where the region stands in a list.
unfoldable pub Contains : CascadeRegion → List CascadeRegion → Type 0
Contains r [] = ⊥
Contains r (x ∷ xs) = (x ≡ r) ⊎ Contains r xs

-- The first member that passes the test: those before it fail.
abbrev pub IsFirst : (CascadeRegion → Bool) → CascadeRegion → List CascadeRegion → Type 0
IsFirst p best xs =
    (before : List CascadeRegion) × (after : List CascadeRegion) × (xs ≡ before ++ best ∷ after)
    × All (λ (r : CascadeRegion). p r ≡ false) before
    × (p best ≡ true)

find-some :
    (p : CascadeRegion → Bool) (xs : List CascadeRegion) (r : CascadeRegion)
    → Contains r xs
    → p r ≡ true
    → (best : CascadeRegion) × (find p xs ≡ some best) × IsFirst p best xs
unfolding find Contains
find-some p [] r h e = elim h [ ]
find-some p (x ∷ xs) r h e = elim (Bool-cases (p x)) [
  | inl here ↦ (x, rw here refl, ([], xs, refl, tt, here))
  | inr other ↦ elim h [
    | inl same ↦ absurd (ground (arith, sym (ap p same) ∙ other, e))
    | inr later ↦
        let (best, found, (before, after, split, low, well)) = find-some p xs r later e in
        (best, rw other found, (x ∷ before, after, ap (◌∷◌ x) split, (other, low), well))
  ]
]

-- Every region stands on the ladder.
abbrev pub IsFull : List CascadeRegion → Type 0
IsFull ladder = All (λ (r : CascadeRegion). Contains r ladder) cascade_regions

abbrev pub head_of : List CascadeRegion → Option CascadeRegion
head_of [] = none
head_of (x ∷ xs) = some x

abbrev rank : CascadeRegion → ℕ
rank wnam = 0
rank enam = 1
rank sam = 2
rank weur = 3
rank eeur = 4
rank apac = 5
rank oc = 6
rank afr = 7
rank me = 8

abbrev region_at : ℕ → CascadeRegion
region_at n =
    if n == 0
    then wnam
    else if n == 1
    then enam
    else if n == 2
    then sam
    else if n == 3
    then weur
    else if n == 4
    then eeur
    else if n == 5
    then apac
    else if n == 6
    then oc
    else if n == 7
    then afr
    else me

region_at-rank : (r : CascadeRegion) → region_at (rank r) ≡ r
region_at-rank wnam = refl
region_at-rank enam = refl
region_at-rank sam = refl
region_at-rank weur = refl
region_at-rank eeur = refl
region_at-rank apac = refl
region_at-rank oc = refl
region_at-rank afr = refl
region_at-rank me = refl

rank_injective : (x r : CascadeRegion) → rank x ≡ rank r → x ≡ r
rank_injective x r e = sym (region_at-rank x) ∙ ap region_at e ∙ region_at-rank r

-- `Contains` as a test.
abbrev has : CascadeRegion → List CascadeRegion → Bool
has r [] = false
has r (x ∷ xs) = rank x == rank r || has r xs

has-Contains : (r : CascadeRegion) (xs : List CascadeRegion) → has r xs ≡ true → Contains r xs
unfolding Contains
has-Contains r [] e = absurd (ground (arith, e))
has-Contains r (x ∷ xs) e = elim (Bool-cases (rank x == rank r)) [
  | inl same ↦ inl (rank_injective x r (ground (arith, same)))
  | inr other ↦ inr (has-Contains r xs (ground (arith, e, other)))
]

abbrev covers : List CascadeRegion → List CascadeRegion → Bool
covers [] l = true
covers (r ∷ rs) l = has r l && covers rs l

covers-Contains :
    (rs l : List CascadeRegion) → covers rs l ≡ true → All (λ (r : CascadeRegion). Contains r l) rs
covers-Contains [] l e = tt
covers-Contains (r ∷ rs) l e =
    (has-Contains r l (ground (arith, e)), covers-Contains rs l (ground (arith, e)))

-- The ladder has nine rungs with every region among them, and begins with the region.
abbrev IsSound : Option CascadeRegion → List CascadeRegion → Type 0
IsSound first l = (covers cascade_regions l ≡ true) × (length l ≡ 9) × (head_of l ≡ first)

-- A look-up in two tables with the same keys finds entries that correspond, or nothing in either.
SoundTables : Dict CascadeRegion → Dict (List CascadeRegion) → Type 0
SoundTables [] [] = Unit
SoundTables ((i, r) ∷ m) ((j, l) ∷ n) = (i ≡ j) × IsSound (some r) l × SoundTables m n
SoundTables _ _ = ⊥

tables_sound : SoundTables continent_to_region continent_ladder
unfolding SoundTables
tables_sound = (
  refl,
  (refl, refl, refl),
  (
    refl,
    (refl, refl, refl),
    (
      refl,
      (refl, refl, refl),
      (
        refl,
        (refl, refl, refl),
        (refl, (refl, refl, refl), (refl, (refl, refl, refl), (refl, (refl, refl, refl), tt))),
      ),
    ),
  ),
)

get_found :
    {V : Type 0} (k i : String) (v : V) (m : Dict V)
    → str_eq i k ≡ true
    → get k ((i, v) ∷ m) ≡ some v
unfolding get
get_found k i v m f = rw f refl

get_other :
    {V : Type 0} (k i : String) (v : V) (m : Dict V)
    → str_eq i k ≡ false
    → get k ((i, v) ∷ m) ≡ get k m
unfolding get
get_other k i v m f = rw f refl

IsSound-of_get :
    (k : String) (l : List CascadeRegion) (m : Dict CascadeRegion) (n : Dict (List CascadeRegion))
    → SoundTables m n
    → get k n ≡ some l
    → IsSound (get k m) l
unfolding SoundTables
IsSound-of_get k l [] [] h e = unfold get in absurd (cc)
IsSound-of_get k l [] (y ∷ n) h e = elim h [ ]
IsSound-of_get k l (x ∷ m) [] h e = elim h [ ]
IsSound-of_get k l ((i, r) ∷ m) ((j, v) ∷ n) (same, sound, later) e =
    elim (Bool-cases (str_eq j k)) [
      | inl here ↦
          let first = get_found k i r m (ap (λ z. str_eq z k) same ∙ here) in
          let found = some-injective _ _ (sym (get_found k j v n here) ∙ e) in
          subst (IsSound (get k ((i, r) ∷ m))) found (subst (λ o. IsSound o v) (sym first) sound)
      | inr other ↦
          let skip = get_other k i r m (ap (λ z. str_eq z k) same ∙ other) in
          subst (λ o. IsSound o l) (sym skip)
            (IsSound-of_get k l m n later (sym (get_other k j v n other) ∙ e))
    ]

Contains-of_full : (r : CascadeRegion) (l : List CascadeRegion) → IsFull l → Contains r l
Contains-of_full wnam l h = h.0
Contains-of_full enam l h = h.1.0
Contains-of_full sam l h = h.1.1.0
Contains-of_full weur l h = h.1.1.1.0
Contains-of_full eeur l h = h.1.1.1.1.0
Contains-of_full apac l h = h.1.1.1.1.1.0
Contains-of_full oc l h = h.1.1.1.1.1.1.0
Contains-of_full afr l h = h.1.1.1.1.1.1.1.0
Contains-of_full me l h = h.1.1.1.1.1.1.1.1.0

ladder_of_continent :
    (to_upper : String → String) (continent : String)
    → str_eq continent "" ≡ false
    → (distribution_ladder to_upper continent ≡ get (to_upper continent) continent_ladder)
      × (region_from_continent to_upper continent ≡ get (to_upper continent) continent_to_region)
unfolding distribution_ladder region_from_continent
ladder_of_continent to_upper continent given = (rw given refl, rw given refl)

no_ladder :
    (to_upper : String → String) (continent : String)
    → str_eq continent "" ≡ true
    → distribution_ladder to_upper continent ≡ none
unfolding distribution_ladder
no_ladder to_upper continent empty = rw empty refl

-- The ladder of a continent is a permutation of all nine regions, and begins with the region that the continent's participants connect to first.
pub distribution_ladder-region_from_continent :
    (to_upper : String → String) (continent : String) (ladder : List CascadeRegion)
    → distribution_ladder to_upper continent ≡ some ladder
    → IsFull ladder
      × (length ladder ≡ 9)
      × (head_of ladder ≡ region_from_continent to_upper continent)
distribution_ladder-region_from_continent to_upper continent ladder e =
    elim (Bool-cases (str_eq continent "")) [
      | inl empty ↦ absurd (ground (arith, sym (no_ladder to_upper continent empty) ∙ e))
      | inr given ↦
          let (full, nine, first) =
            IsSound-of_get (to_upper continent) ladder continent_to_region continent_ladder
              tables_sound (sym (ladder_of_continent to_upper continent given).0 ∙ e) in
          (
            covers-Contains cascade_regions ladder full,
            nine,
            first ∙ sym (ladder_of_continent to_upper continent given).1,
          )
    ]

-- On a continent that has a ladder, if some region is healthy then a region is found: it is healthy, and no region before it on the ladder is.
pub nearest_healthy_region-IsFirst :
    (to_upper : String → String) (continent : String) (ladder : List CascadeRegion)
    (is_healthy : CascadeRegion → Bool) (r : CascadeRegion)
    → distribution_ladder to_upper continent ≡ some ladder
    → is_healthy r ≡ true
    → (best : CascadeRegion) × (nearest_healthy_region to_upper continent is_healthy ≡ some best)
      × IsFirst is_healthy best ladder
unfolding nearest_healthy_region
nearest_healthy_region-IsFirst to_upper continent ladder is_healthy r e healthy =
    let (full, _, _) = distribution_ladder-region_from_continent to_upper continent ladder e in
    let (best, found, first) =
      find-some is_healthy ladder r (Contains-of_full r ladder full) healthy in
    (best, ap (λ o. nearest_in o is_healthy) e ∙ found, first)
