-- ===== src/Whip/Tests.antt =====
-- Instances of the theorems on the WHIP sweep.
mod Json
use wave_realtime_edge.Common.{
  inl, inr, ◌≤◌, ◌<◌, ℕ, ◌+◌, ◌-◌, String, ◌≡◌, refl, ◌≢◌, true, false, Option, none, some, List,
  [], ◌∷◌, arith, if◌then◌else◌, get, eq_iff,
}
use wave_realtime_edge.Whip.Resource.{
  is_resource_id, resource_key, id_of, whip_sweep_cursor_key, WhipResource, WhipStore,
}
use wave_realtime_edge.Whip.Meter.{}
use wave_realtime_edge.Whip.Plan.{Verdict, gone, disconnected, unknown}
use wave_realtime_edge.Whip.Sweep.{Tick, no_stats, Sweeping, Page, sweep_page}
use wave_realtime_edge.Whip.Rule.{visit}
use wave_realtime_edge.Whip.Refine.{sweep_page-visit}
use wave_realtime_edge.Whip.Deaths.{Visit, visits}
use wave_realtime_edge.Whip.Billing.{ConfirmedDeath, two_deaths}
use wave_realtime_edge.Whip.Orphans.{IsGone, orphan_is_billed}
use wave_realtime_edge.Whip.Cron.{WhipEnv, Swept, sweep_pages, sweep_whip_resources}
use wave_realtime_edge.Whip.Limit.{next_cursor, sweep_pages-ends, sweep-passes_over}
use wave_realtime_edge.Whip.Tests.Json.{stringify, parse, parse-stringify, stringify_nonempty}

-- A tick in which every session has that verdict, and the gateway and the store accept all.
abbrev tick_of : Verdict → Tick
tick_of v = record {
  now = λ n. 1000000 + n;
  liveness = λ s. some v;
  fetch = λ u. some true;
  kv_fails = λ k. false;
}

abbrev publish : WhipResource
publish = record {
  session_id = "session-1";
  org = "org-1";
  started_at = 1000;
  room = none;
  meter = none;
  last_seen_at = some 61000;
  disconnected_since = none;
}

abbrev visit_at : Verdict → ℕ → Visit
visit_at v at = record { tick = tick_of v; at = at }

abbrev resource_id : String
resource_id = "resource-1"

abbrev first_visits : List Visit
first_visits = visit_at gone 300000 ∷ (visit_at unknown 400000 ∷ visit_at disconnected 600000 ∷ [])

first_visits-none :
    visits stringify parse resource_id first_visits (some (stringify publish)) ≡ none
first_visits-none =
    elim (orphan_is_billed stringify parse resource_id parse-stringify stringify_nonempty publish
      (visit_at gone 300000) (visit_at unknown 400000 ∷ []) (visit_at disconnected 600000) refl
      IsGone.is_gone refl ((λ e. cc), tt) IsGone.is_disconnected refl (omega arith)) [
        | inl (_, e) ↦ e
        | inr e ↦ e
      ]

two_deaths_example : ConfirmedDeath stringify parse resource_id publish first_visits
two_deaths_example =
    two_deaths stringify parse resource_id publish parse-stringify stringify_nonempty first_visits
      refl first_visits-none

abbrev other_key : String
other_key = "whip:resource-2"

resource_id_is_id : is_resource_id resource_id ≡ true
unfolding is_resource_id
resource_id_is_id = refl

other_is_other : id_of other_key ≢ resource_id
other_is_other = ground (arith, eq_iff "resource-2" "resource-1")

abbrev start : Sweeping
start = record { kv = (resource_key resource_id, stringify publish) ∷ []; stats = no_stats }

sweep_page-visit_example :
    (n : ℕ) × (get
        (resource_key resource_id)
        (sweep_page stringify parse
          (tick_of gone)
          200
          (other_key ∷ resource_key resource_id ∷ [])
          0
          start).1.kv
      ≡ visit stringify parse
          (tick_of gone)
          (1000000 + n)
          resource_id
          (get (resource_key resource_id) start.kv))
sweep_page-visit_example =
    sweep_page-visit stringify parse (tick_of gone) 200 resource_id (other_key ∷ []) [] 0 start
      resource_id_is_id (other_is_other, tt) tt (omega arith)

-- A listing that begins with an empty page and never ends.
abbrev endless : WhipStore → Option String → Page
endless kv none = record { keys = []; list_complete = false; cursor = some "next" }
endless kv (some cursor) = record {
  keys = other_key ∷ [];
  list_complete = false;
  cursor = some "next";
}

abbrev empty_ahead : Option String → ℕ
empty_ahead none = 1
empty_ahead (some cursor) = 0

empty_ahead-le : (c : Option String) → empty_ahead c ≤ 1
empty_ahead-le none = omega arith
empty_ahead-le (some cursor) = omega arith

empty_ahead-falls :
    (kv : WhipStore) (c : Option String)
    → (endless kv c).list_complete ≡ false
    → (endless kv c).keys ≡ []
    → empty_ahead (endless kv c).cursor < empty_ahead c
empty_ahead-falls kv none h e = omega arith
empty_ahead-falls kv (some cursor) h e = absurd (cc)

sweep_pages-ends_example :
    (w : Swept) × (sweep_pages stringify parse endless (tick_of gone) 402 200 none 0 start ≡ some w)
sweep_pages-ends_example =
    sweep_pages-ends stringify parse endless (tick_of gone) 402 200 1 empty_ahead none 0 start
      empty_ahead-le empty_ahead-falls (omega arith)

-- A listing in one page of two keys.
abbrev listing : WhipStore → Option String → Page
listing kv cursor = record {
  keys = other_key ∷ resource_key resource_id ∷ [];
  list_complete = true;
  cursor = none;
}

abbrev provisioned : WhipEnv
provisioned = record { kv_bound = true; sfu_configured = true; emit_provisioned = true }

start_without_cursor : get whip_sweep_cursor_key start.kv ≡ none
unfolding get
start_without_cursor = refl

sweep-passes_over_example :
    (s : Sweeping) × (sweep_whip_resources stringify parse listing
        (tick_of gone)
        1
        provisioned
        (some 1)
        start.kv
      ≡ some s)
    × (get (resource_key resource_id) s.kv ≡ get (resource_key resource_id) start.kv)
    × (get whip_sweep_cursor_key s.kv ≡ next_cursor (listing start.kv none))
sweep-passes_over_example =
    sweep-passes_over stringify parse listing (tick_of gone) 0 1 provisioned start.kv resource_id
      (other_key ∷ []) (resource_key resource_id ∷ []) refl start_without_cursor refl (omega arith)
      (other_is_other, tt) (λ e. cc) refl
