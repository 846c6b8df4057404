-- ===== src/Whip/Limit.antt =====
-- src/whip-sweep.ts: the limit on the keys of a tick: the loop over the pages ends, and what is beyond the
-- limit is passed over.
use native.Mathlib.Nat.{mul-le-mul_right, add-mul}
use wave_realtime_edge.Common.{
  ◌⊎◌, ◌*◌, ℕ, zero, suc, ◌+◌, ◌-◌, ◌≤◌, ◌<◌, String, ◌≡◌, refl, ◌∙◌, ◌≢◌, inl, inr, Bool, true,
  false, ◌&&◌, Option, none, some, List, [], ◌∷◌, ◌++◌, arith, length, All, ltb, if◌then◌else◌, get,
  Option-cases, Bool-cases, eq_iff, get-put_self, get-put_ne, get-del_self, get-del_ne,
}
use wave_realtime_edge.Whip.Resource.{
  resource_key, id_of, whip_sweep_cursor_key, resource_key-ne_cursor, WhipResource, PartialResource,
  WhipStore,
}
use wave_realtime_edge.Whip.Plan.{WhipSweepEntry}
use wave_realtime_edge.Whip.Sweep.{
  Tick, no_stats, Sweeping, Page, Scan, entry_of, add_entry, scan, sweep_page,
}
use wave_realtime_edge.Whip.Refine.{sweep_page_past}
use wave_realtime_edge.Whip.Cron.{WhipEnv, truthy, Swept, sweep_pages, park, sweep_whip_resources}

-- The cursor that the loop goes on with after a page.
abbrev pub next_cursor : Page → Option String
next_cursor page = if page.list_complete then none else page.cursor

module _ (json_stringify : WhipResource → String) (json_parse : String → Option PartialResource)
    (list : WhipStore → Option String → Page) (t : Tick) where
  examined-add_entry :
      (o : Option WhipSweepEntry) (s : Scan)
      → (add_entry json_stringify json_parse t o s).examined ≡ s.examined
  unfolding add_entry
  examined-add_entry none s = refl
  examined-add_entry (some e) s = refl

  scan-examined :
      (kv : WhipStore) (limit : ℕ) (ns : List String) (s : Scan)
      → s.examined ≤ (scan json_stringify json_parse t kv limit ns s).examined
  unfolding scan
  scan-examined kv limit [] s = omega arith
  scan-examined kv limit (n ∷ ns) s =
      let o = entry_of json_stringify json_parse t kv s.scanned n in
      let s1 : Scan = record s { examined = s.examined + 1 } in
      let s2 = add_entry json_stringify json_parse t o s1 in
      ground (arith, scan-examined kv limit ns s2, examined-add_entry o s1)

  -- A key is examined, unless the limit is met.
  scan-progress :
      (kv : WhipStore) (limit : ℕ) (n : String) (ns : List String) (s : Scan)
      → s.examined < limit
      → s.examined < (scan json_stringify json_parse t kv limit (n ∷ ns) s).examined
  unfolding scan
  scan-progress kv limit n ns s lt =
      let o = entry_of json_stringify json_parse t kv s.scanned n in
      let s1 : Scan = record s { examined = s.examined + 1 } in
      let s2 = add_entry json_stringify json_parse t o s1 in
      ground (arith, scan-examined kv limit ns s2, examined-add_entry o s1)

  sweep_page-examined :
      (limit : ℕ) (ns : List String) (examined : ℕ) (s : Sweeping)
      → 0 < length ns
      → examined < limit
      → examined < (sweep_page json_stringify json_parse t limit ns examined s).0
  unfolding sweep_page
  sweep_page-examined limit [] examined s h lt = absurd (omega arith)
  sweep_page-examined limit (n ∷ ns) examined s h lt =
      scan-progress s.kv limit n ns
        (record { examined = examined; scanned = s.stats.scanned; entries = [] }) lt

  sweep_page-monotone :
      (limit : ℕ) (ns : List String) (examined : ℕ) (s : Sweeping)
      → examined ≤ (sweep_page json_stringify json_parse t limit ns examined s).0
  unfolding sweep_page
  sweep_page-monotone limit ns examined s =
      scan-examined s.kv limit ns
        (record { examined = examined; scanned = s.stats.scanned; entries = [] })

  truthy_next : (page : Page) → truthy (next_cursor page) ≡ true → page.list_complete ≡ false
  unfolding truthy
  truthy_next page h = ground arith

  and_true : (a b : Bool) → (a && b) ≡ true → (a ≡ true) × (b ≡ true)
  and_true true true h = (refl, refl)
  and_true true false h = cc
  and_true false b h = cc

  and_false : (a b : Bool) → b ≡ false → (a && b) ≡ false
  and_false a b e = ground arith

  -- A page has no keys, or one of them is examined.
  page_empties :
      (limit : ℕ) (ns : List String) (examined : ℕ) (s : Sweeping)
      → examined < limit
      → (ns ≡ []) ⊎ (examined < (sweep_page json_stringify json_parse t limit ns examined s).0)
  page_empties limit [] examined s lt = inl refl
  page_empties limit (n ∷ ns) examined s lt =
      inr (sweep_page-examined limit (n ∷ ns) examined s (omega arith) lt)

  -- Enough rounds are left after a page that was empty, or of which a key was examined.
  rounds_left :
      (limit examined now gap left left' fuel : ℕ)
      → examined ≤ now
      → now < limit
      → left' ≤ gap
      → (left' < left) ⊎ (examined < now)
      → (limit - examined) * (gap + 1) + left < suc fuel
      → (limit - now) * (gap + 1) + left' < fuel
  rounds_left limit examined now gap left left' fuel le lt b (inl near) k =
      let fewer : limit - now ≤ limit - examined = omega arith in
      let times = mul-le-mul_right (gap + 1) fewer in omega (arith, times, near, k)
  rounds_left limit examined now gap left left' fuel le lt b (inr more) k =
      let fewer : (limit - now) + 1 ≤ limit - examined = omega arith in
      let times = mul-le-mul_right (gap + 1) fewer in
      let split = add-mul (limit - now) 1 (gap + 1) in omega (arith, times, split, b, k)

  -- The loop over the pages ends. The store may list empty pages before the last, but its cursor moves on
  -- through them: where an empty page is not the last, fewer empty pages stand ahead of its cursor than
  -- ahead of the one before, and there are never more than `gap` of them in a row. Then as many rounds are
  -- enough as there are keys that may still be examined, times `gap` and one, and the empty pages ahead,
  -- and one more.
  pub sweep_pages-ends :
      (fuel limit gap : ℕ) (ahead : Option String → ℕ) (cursor : Option String) (examined : ℕ)
      (s : Sweeping)
      → ((c : Option String) → ahead c ≤ gap)
      → ((kv : WhipStore) (c : Option String)
          → (list kv c).list_complete ≡ false
          → (list kv c).keys ≡ []
          → ahead (list kv c).cursor < ahead c)
      → (limit - examined) * (gap + 1) + ahead cursor < fuel
      → (w : Swept) × (sweep_pages json_stringify json_parse list t fuel limit cursor examined s
          ≡ some w)
  unfolding sweep_pages
  sweep_pages-ends zero limit gap ahead cursor examined s bound moves lt = absurd (omega arith)
  sweep_pages-ends (suc fuel) limit gap ahead cursor examined s bound moves lt =
      let page = list s.kv cursor in
      let now = (sweep_page json_stringify json_parse t limit page.keys examined s).0 in
      let s' = (sweep_page json_stringify json_parse t limit page.keys examined s).1 in
      let next = next_cursor page in
      let le = sweep_page-monotone limit page.keys examined s in
      elim (Bool-cases (truthy next && ltb now limit)) [
        | inr stop ↦ (
          record { complete = page.list_complete; cursor = next; state = s' },
          rw (stop, sweep_pages) refl,
        )
        | inl go ↦
            let (more, below) = and_true (truthy next) (ltb now limit) go in
            let open_ended = truthy_next page more in
            let onward : next ≡ page.cursor = rw open_ended refl in
            let under : now < limit = ground arith in
            let step : (ahead next < ahead cursor) ⊎ (examined < now) =
              elim (page_empties limit page.keys examined s (omega arith)) [
                | inl empty ↦ inl (rw onward (moves s.kv cursor open_ended empty))
                | inr seen ↦ inr seen
              ] in
            let (w, e) = sweep_pages-ends fuel limit gap ahead next now s' bound moves (
              rounds_left limit examined now gap (ahead cursor) (ahead next) fuel le under
                (bound next) step lt) in
            (w, rw (go, sweep_pages) e)
      ]

  -- The limit is met in a page that has enough keys.
  scan-full :
      (kv : WhipStore) (limit : ℕ) (xs ys : List String) (s : Scan)
      → limit ≤ s.examined + length xs
      → limit ≤ (scan json_stringify json_parse t kv limit (xs ++ ys) s).examined
  unfolding scan
  scan-full kv limit [] ys s le = omega (arith, scan-examined kv limit ys s)
  scan-full kv limit (n ∷ ns) ys s le =
      let o = entry_of json_stringify json_parse t kv s.scanned n in
      let s1 : Scan = record s { examined = s.examined + 1 } in
      let s2 = add_entry json_stringify json_parse t o s1 in
      ground (arith, scan-full kv limit ns ys s2, examined-add_entry o s1)

  sweep_page-full :
      (limit : ℕ) (xs ys : List String) (s : Sweeping)
      → limit ≤ length xs
      → ltb (sweep_page json_stringify json_parse t limit (xs ++ ys) 0 s).0 limit ≡ false
  unfolding sweep_page
  sweep_page-full limit xs ys s le =
      let there =
        scan-full s.kv limit xs ys
          (record { examined = 0; scanned = s.stats.scanned; entries = [] }) (omega arith) in
      ground arith

  park-other :
      (w : Swept) (k : String)
      → k ≢ whip_sweep_cursor_key
      → get k (park json_stringify json_parse list t w).kv ≡ get k w.state.kv
  unfolding park
  park-other w k ne = elim (Option-cases w.cursor) [
    | inl e ↦ ground (arith, get-del_ne whip_sweep_cursor_key k w.state.kv)
    | inr (c, e) ↦ ground (
      arith,
      get-del_ne whip_sweep_cursor_key k w.state.kv,
      get-put_ne whip_sweep_cursor_key k c w.state.kv,
    )
  ]

  park-cursor :
      (w : Swept)
      → t.kv_fails whip_sweep_cursor_key ≡ false
      → w.cursor ≢ some ""
      → (w.complete ≡ true → w.cursor ≡ none)
      → get whip_sweep_cursor_key (park json_stringify json_parse list t w).kv ≡ w.cursor
  unfolding park truthy
  park-cursor w f ne c = elim (Option-cases w.cursor) [
    | inl e ↦ ground (arith, get-del_self whip_sweep_cursor_key w.state.kv)
    | inr (d, e) ↦ ground (arith, eq_iff d "", get-put_self whip_sweep_cursor_key d w.state.kv)
  ]

  -- The keys of a page that stand past the limit are passed over: if the sweep is provisioned and starts
  -- at the head of the listing, and no key of a resource is among the first keys of the first page, as
  -- many as the limit, then the resource is left as it is, and the next tick goes on after that page, or
  -- at the head again if the page is the only one; the cursor of the page is not the empty text, and the
  -- store keeps it.
  pub sweep-passes_over :
      (fuel limit : ℕ) (env : WhipEnv) (kv : WhipStore) (i : String) (xs ys : List String)
      → env ≡ record { kv_bound = true; sfu_configured = true; emit_provisioned = true }
      → get whip_sweep_cursor_key kv ≡ none
      → (list kv none).keys ≡ xs ++ ys
      → limit ≤ length xs
      → All (λ n. id_of n ≢ i) xs
      → next_cursor (list kv none) ≢ some ""
      → t.kv_fails whip_sweep_cursor_key ≡ false
      → (s : Sweeping) × (sweep_whip_resources json_stringify json_parse list t
            (suc fuel)
            env
            (some limit)
            kv
          ≡ some s)
        × (get (resource_key i) s.kv ≡ get (resource_key i) kv)
        × (get whip_sweep_cursor_key s.kv ≡ next_cursor (list kv none))
  unfolding sweep_whip_resources sweep_pages
  sweep-passes_over fuel limit env kv i xs ys on head keys le far ne f =
      let page = list kv none in
      let start : Sweeping = record { kv = kv; stats = no_stats } in
      let s' = (sweep_page json_stringify json_parse t limit (xs ++ ys) 0 start).1 in
      let w : Swept = record {
        complete = page.list_complete;
        cursor = next_cursor page;
        state = s';
      } in
      let stop = and_false (truthy (next_cursor page)) _ (sweep_page-full limit xs ys start le) in
      let round : sweep_pages json_stringify json_parse list t (suc fuel) limit none 0 start
          ≡ some w =
        rw (keys, sweep_pages) (rw stop refl) in
      (
        park json_stringify json_parse list t w,
        rw (on, head, sweep_whip_resources) (rw (round, sweep_whip_resources) refl),
        park-other w (resource_key i) (resource_key-ne_cursor i)
            ∙ sweep_page_past json_stringify json_parse t limit i xs ys 0 start far (omega arith),
        park-cursor w f ne (λ h. rw h refl),
      )
