-- ===== src/Whip/Cron.antt =====
-- src/whip-sweep.ts, sweepWhipResources: the loop over the pages of the listing, and the place that it keeps
-- between ticks. The listing of the key-value store is a parameter, from a store and a cursor to a page.
-- The loop takes fuel; Whip/Limit.antt shows how much is enough.
use wave_realtime_edge.Common.{
  ℕ, zero, suc, String, str_eq, Bool, false, ◌&&◌, ◌||◌, not, Option, none, some, ltb,
  if◌then◌else◌, get, put, del,
}
use wave_realtime_edge.Whip.Resource.{
  whip_sweep_cursor_key, WhipResource, PartialResource, WhipStore,
}
use wave_realtime_edge.Whip.Plan.{}
use wave_realtime_edge.Whip.Sweep.{Tick, no_stats, Sweeping, Page, sweep_page}

-- What the tick needs of its environment, by whether it is there.
pub record WhipEnv : Type 0 where
  pub kv_bound : Bool
  pub sfu_configured : Bool
  pub emit_provisioned : Bool

-- A cursor that is a text other than the empty one.
unfoldable pub truthy : Option String → Bool
truthy none = false
truthy (some cursor) = not (str_eq cursor "")

pub record Swept : Type 0 where
  pub complete : Bool
  pub cursor : Option String
  pub state : Sweeping

abbrev pub default_limit : ℕ
default_limit = 200

abbrev pub or_default_limit : Option ℕ → ℕ
or_default_limit none = default_limit
or_default_limit (some n) = n

module _ (json_stringify : WhipResource → String) (json_parse : String → Option PartialResource)
    (list : WhipStore → Option String → Page) (t : Tick) where
  unfoldable pub sweep_pages : ℕ → ℕ → Option String → ℕ → Sweeping → Option Swept
  unfolding sweep_page truthy
  sweep_pages zero limit cursor examined s = none
  sweep_pages (suc fuel) limit cursor examined s =
      let page = list s.kv cursor in
      let (now_examined, s') = sweep_page json_stringify json_parse t limit page.keys examined s in
      let next = if page.list_complete then none else page.cursor in
      let rest = sweep_pages fuel limit next now_examined s' in
      if truthy next && ltb now_examined limit
      then rest
      else some (record { complete = page.list_complete; cursor = next; state = s' })

  -- The cursor is kept for the next tick, or deleted once the listing is at its end.
  unfoldable pub park : Swept → Sweeping
  unfolding truthy put del
  park w =
      if t.kv_fails whip_sweep_cursor_key
      then w.state
      else if w.complete || not (truthy w.cursor)
      then record (w.state) { kv = del whip_sweep_cursor_key w.state.kv }
      else elim w.cursor [
        | none ↦ w.state
        | some cursor ↦ record (w.state) { kv = put whip_sweep_cursor_key cursor w.state.kv }
      ]

  unfoldable pub sweep_whip_resources : ℕ → WhipEnv → Option ℕ → WhipStore → Option Sweeping
  unfolding sweep_pages park get
  sweep_whip_resources fuel env limit kv =
      let start : Sweeping = record { kv = kv; stats = no_stats } in
      if not env.kv_bound || not env.sfu_configured || not env.emit_provisioned
      then some start
      else elim (sweep_pages fuel (or_default_limit limit) (get whip_sweep_cursor_key kv) 0 start) [
        | none ↦ none
        | some w ↦ some (park w)
      ]
