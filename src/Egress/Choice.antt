-- ===== src/Egress/Choice.antt =====
-- src/egress-router.ts: where a job goes.
use wave_realtime_edge.Common.{
  true, ◌&&◌, not, Bool-cases, Bool, includes, if◌then◌else◌, false, refl, subst, length-append,
  ◌∙◌, ◌++◌, sym, some, ℕ, ◌+◌, ◌≤◌, ◌≡◌, ◌≢◌, ◌⊎◌, inl, inr, none, List, [], ◌∷◌, arith, length,
  All, Option-cases,
}
use wave_realtime_edge.Egress.Router.{
  Limit, runpod_nvenc_limit, wave_render_limit, cf_stream_limit, cf_stream, runpod_nvenc,
  wave_render, truthy, malformed, Fault, validate_egress_job, is_over, exceeds, egress_route,
  EgressDecision, EgressBackend, EgressJob, Exclusion, EgressTier, egress_routing_table, exclusion,
  walk, routed, no_backend,
}

-- No later tier is cheaper than an earlier one.
unfoldable pub Ascending : List EgressTier → Type 0
Ascending [] = Unit
Ascending (t ∷ ts) = All (λ (u : EgressTier). t.cost_rank ≤ u.cost_rank) ts × Ascending ts

egress_routing_table-Ascending : Ascending egress_routing_table
unfolding Ascending egress_routing_table
egress_routing_table-Ascending = ((omega arith, (omega arith, tt)), ((omega arith, tt), (tt, tt)))

-- The rank is at most that of every tier of the list that nothing excludes.
unfoldable pub IsCheapest : EgressJob → ℕ → List EgressTier → Type 0
IsCheapest job rank ts = All (λ (t : EgressTier). exclusion job t ≡ none → rank ≤ t.cost_rank) ts

-- The backend and the rank are those of a tier of the list that nothing excludes.
unfoldable pub IsTier : EgressJob → EgressBackend → ℕ → List EgressTier → Type 0
IsTier job backend rank [] = ⊥
IsTier job backend rank (t ∷ ts) =
    ((t.backend ≡ backend) × (t.cost_rank ≡ rank) × (exclusion job t ≡ none))
    ⊎ IsTier job backend rank ts

IsCheapest-of_first :
    (job : EgressJob) (rank : ℕ) (ts : List EgressTier)
    → All (λ (u : EgressTier). rank ≤ u.cost_rank) ts
    → IsCheapest job rank ts
unfolding IsCheapest
IsCheapest-of_first job rank [] h = tt
IsCheapest-of_first job rank (t ∷ ts) (p, h) = (λ _. p, IsCheapest-of_first job rank ts h)

walk_free :
    (job : EgressJob) (seen : List Exclusion) (t : EgressTier) (ts : List EgressTier)
    → exclusion job t ≡ none
    → walk job seen (t ∷ ts) ≡ routed t.backend t.cost_rank
unfolding walk
walk_free job seen t ts free = rw (free, walk) refl

walk_found :
    (job : EgressJob) (seen : List Exclusion) (t : EgressTier) (ts : List EgressTier)
    (e : Exclusion)
    → exclusion job t ≡ some e
    → walk job seen (t ∷ ts) ≡ walk job (seen ++ (e ∷ [])) ts
unfolding walk
walk_found job seen t ts e found = rw (found, walk) refl

walk-IsCheapest :
    (job : EgressJob) (seen : List Exclusion) (ts : List EgressTier) (backend : EgressBackend)
    (rank : ℕ)
    → Ascending ts
    → walk job seen ts ≡ routed backend rank
    → IsTier job backend rank ts × IsCheapest job rank ts
unfolding walk Ascending IsTier IsCheapest
walk-IsCheapest job seen [] backend rank a h = absurd (ground arith)
walk-IsCheapest job seen (t ∷ ts) backend rank (p, a) h = elim (Option-cases (exclusion job t)) [
  | inl free ↦
      let same : routed t.backend t.cost_rank ≡ routed backend rank =
        sym (walk_free job seen t ts free) ∙ h in
      let cost : t.cost_rank ≡ rank = ground (arith, same) in
      let low = subst (λ r. All (λ (u : EgressTier). r ≤ u.cost_rank) ts) cost p in
      (
        inl (ground (arith, same), cost, free),
        (λ _. omega arith, IsCheapest-of_first job rank ts low),
      )
  | inr (e, found) ↦
      let later =
        walk-IsCheapest job (seen ++ (e ∷ [])) ts backend rank a
          (sym (walk_found job seen t ts e found) ∙ h) in
      (inr later.0, (λ free. absurd (ground (arith, free, found)), later.1))
]

walk-refuses :
    (job : EgressJob) (seen : List Exclusion) (ts : List EgressTier) (reasons : List Exclusion)
    → walk job seen ts ≡ no_backend reasons
    → All (λ (t : EgressTier). exclusion job t ≢ none) ts
      × (length reasons ≡ length seen + length ts)
unfolding walk
walk-refuses job seen [] reasons h = (tt, (ground (arith, h)))
walk-refuses job seen (t ∷ ts) reasons h = elim (Option-cases (exclusion job t)) [
  | inl free ↦ absurd (ground (arith, sym (walk_free job seen t ts free) ∙ h))
  | inr (e, found) ↦
      let later =
        walk-refuses job (seen ++ (e ∷ [])) ts reasons
          (sym (walk_found job seen t ts e found) ∙ h) in
      (
        (λ free. absurd (ground (arith, free, found)), later.0),
        omega (arith, later.1, length-append seen (e ∷ [])),
      )
]

exclusion-within :
    (job : EgressJob) (t : EgressTier)
    → exclusion job t ≡ none
    → is_over job.max_cost_rank t.cost_rank ≡ false
unfolding exclusion
exclusion-within job t h = elim (Bool-cases (is_over job.max_cost_rank t.cost_rank)) [
  | inl over ↦ absurd (ground (arith, over, h))
  | inr within ↦ within
]

IsTier-within :
    (job : EgressJob) (backend : EgressBackend) (rank : ℕ) (ts : List EgressTier)
    → IsTier job backend rank ts
    → is_over job.max_cost_rank rank ≡ false
unfolding IsTier
IsTier-within job backend rank [] h = elim h [ ]
IsTier-within job backend rank (t ∷ ts) (inl (same, cost, free)) =
    subst (λ r. is_over job.max_cost_rank r ≡ false) cost (exclusion-within job t free)
IsTier-within job backend rank (t ∷ ts) (inr later) = IsTier-within job backend rank ts later

route_of_valid :
    (job : EgressJob)
    → validate_egress_job job ≡ none
    → egress_route job ≡ walk job [] egress_routing_table
unfolding egress_route
route_of_valid job valid = rw (valid, egress_route) refl

route_of_invalid :
    (job : EgressJob) (fault : Fault)
    → validate_egress_job job ≡ some fault
    → egress_route job ≡ malformed fault
unfolding egress_route
route_of_invalid job fault invalid = rw (invalid, egress_route) refl

-- A job that is routed is well formed, and its backend and cost rank are those of a tier of the routing table that is capable of the job and not above the job's ceiling; no tier of the table that is capable of it and within the ceiling has a lower cost rank.
pub egress_route-IsCheapest :
    (job : EgressJob) (backend : EgressBackend) (rank : ℕ)
    → egress_route job ≡ routed backend rank
    → (validate_egress_job job ≡ none)
      × (is_over job.max_cost_rank rank ≡ false)
      × IsTier job backend rank egress_routing_table
      × IsCheapest job rank egress_routing_table
egress_route-IsCheapest job backend rank h = elim (Option-cases (validate_egress_job job)) [
  | inr (fault, invalid) ↦ absurd (ground (arith, sym (route_of_invalid job fault invalid) ∙ h))
  | inl valid ↦
      let found =
        walk-IsCheapest job [] egress_routing_table backend rank egress_routing_table-Ascending
          (sym (route_of_valid job valid) ∙ h) in
      (valid, IsTier-within job backend rank egress_routing_table found.0, found.0, found.1)
]

-- wave-render's envelope: up to nine sources, up to 1920 by 1080, H.264, and not in real time.
unfoldable pub fits_wave_render : EgressJob → Bool
unfolding exceeds includes
fits_wave_render job =
    not (exceeds job.source_count 9)
    && (not (exceeds job.width 1920)
        && (not (exceeds job.height 1080)
            && (includes ("h264" ∷ []) job.codec
                && includes ("batch" ∷ "nearRealTime" ∷ []) job.latency)))

-- Where a job belongs when no cost is too high.
unfoldable pub home : EgressJob → EgressDecision
unfolding fits_wave_render
home job =
    if truthy job.needs_compositing
    then if fits_wave_render job then routed wave_render 1 else routed runpod_nvenc 2
    else routed cf_stream 0

-- What holds wave-render back from a compositing job, if anything.
wave_render_limit-fits :
    (job : EgressJob)
    → truthy job.needs_compositing ≡ true
    → (fits_wave_render job ≡ true) × (wave_render_limit job ≡ none)
      ⊎ (fits_wave_render job ≡ false) × ((l : Limit) × (wave_render_limit job ≡ some l))
unfolding fits_wave_render wave_render_limit
wave_render_limit-fits job composites = ground (arith, composites)

walk-home :
    (job : EgressJob) → job.max_cost_rank ≡ none → walk job [] egress_routing_table ≡ home job
unfolding walk egress_routing_table exclusion is_over cf_stream_limit runpod_nvenc_limit home
walk-home job free = elim (Bool-cases (truthy job.needs_compositing)) [
  | inl composites ↦ elim (wave_render_limit-fits job composites) [
    | inl (fits, able) ↦ ground (arith, free, composites, fits, able)
    | inr (fits, (l, unable)) ↦ ground (arith, free, composites, fits, unable)
  ]
  | inr plain ↦ ground (arith, free, plain)
]

home-routes : (job : EgressJob) (reasons : List Exclusion) → home job ≢ no_backend reasons
unfolding home
home-routes job reasons h = ground (arith, h)

-- A well-formed job without a cost ceiling is never refused: without compositing it goes to the passthrough, with compositing to wave-render when it fits that tier's envelope and to the GPU tier otherwise.
pub egress_route-home :
    (job : EgressJob)
    → validate_egress_job job ≡ none
    → job.max_cost_rank ≡ none
    → egress_route job ≡ home job
egress_route-home job valid free = route_of_valid job valid ∙ walk-home job free

-- When no tier is found for a well-formed job the job has a ceiling, every tier of the table is above it or not capable of the job, and the refusal has one reason for each tier.
pub egress_route-refuses :
    (job : EgressJob) (reasons : List Exclusion)
    → egress_route job ≡ no_backend reasons
    → (validate_egress_job job ≡ none)
      × (job.max_cost_rank ≢ none)
      × All (λ (t : EgressTier). exclusion job t ≢ none) egress_routing_table
      × (length reasons ≡ length egress_routing_table)
egress_route-refuses job reasons h = elim (Option-cases (validate_egress_job job)) [
  | inr (fault, invalid) ↦ absurd (ground (arith, sym (route_of_invalid job fault invalid) ∙ h))
  | inl valid ↦
      let found =
        walk-refuses job [] egress_routing_table reasons (sym (route_of_valid job valid) ∙ h) in
      (
        valid,
        λ free. home-routes job reasons (sym (egress_route-home job valid free) ∙ h),
        found.0,
        omega (arith, found.1),
      )
]
