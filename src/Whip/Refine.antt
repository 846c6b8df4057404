-- ===== src/Whip/Refine.antt =====
-- src/whip-sweep.ts: the sweep of a page acts on each resource by the rule for one resource.
use wave_realtime_edge.Common.{
  ℕ, ◌+◌, ◌≤◌, ◌<◌, String, ◌≡◌, refl, sym, ap, subst, ◌∙◌, ◌≢◌, inl, inr, true, Option, none, some,
  List, [], ◌∷◌, ◌++◌, length, All, All-append, get, Option-cases,
}
use wave_realtime_edge.Whip.Resource.{
  is_resource_id, resource_key, id_of, WhipResource, PartialResource, read_raw, load_resource,
}
use wave_realtime_edge.Whip.Plan.{WhipSweepEntry, sweep_action, action_of, plan_whip_sweep}
use wave_realtime_edge.Whip.Sweep.{
  Tick, Sweeping, Scan, or_unknown, entry_of, scan, apply_plan, count_scan, sweep_page,
}
use wave_realtime_edge.Whip.Effects.{Absent}
use wave_realtime_edge.Whip.Visit.{apply_plan_unique, apply_plan-Absent}
use wave_realtime_edge.Whip.Rule.{settle, visit, settle_lem, visit_raw}
use wave_realtime_edge.Whip.Found.{
  some_list, found, scan-found, entry_for, found_past-Absent, Split, found-Split, entry_of_resource,
}

module _ (json_stringify : WhipResource → String) (json_parse : String → Option PartialResource)
    (t : Tick) where
  apply_unfound :
      (i : String) (now : ℕ) (s : Sweeping) (n : ℕ) (es : List WhipSweepEntry)
      → is_resource_id i ≡ true
      → load_resource json_parse s.kv i ≡ none
      → (pre post : List WhipSweepEntry) → Absent i pre
      → Absent i post
      → es
        ≡ pre ++ (some_list (entry_of json_stringify json_parse t s.kv n (resource_key i)) ++ post)
      → get (resource_key i) (apply_plan json_stringify json_parse t (plan_whip_sweep es now) s).kv
        ≡ get (resource_key i) s.kv
  unfolding entry_for some_list
  apply_unfound i now s n es ok none_there pre post a b q =
      let e : es ≡ pre ++ post =
        rw (q, entry_of_resource json_stringify json_parse t s.kv n i ok, none_there) refl in
      apply_plan-Absent json_stringify json_parse t i now es s
        (rw e (All-append (λ e. e.resource_id ≢ i) pre post a b))

  apply_found :
      (i raw : String) (r : WhipResource) (now : ℕ) (s : Sweeping) (n : ℕ)
      (es : List WhipSweepEntry)
      → is_resource_id i ≡ true
      → get (resource_key i) s.kv ≡ some raw
      → load_resource json_parse s.kv i ≡ some r
      → (pre post : List WhipSweepEntry) → Absent i pre
      → Absent i post
      → es
        ≡ pre ++ (some_list (entry_of json_stringify json_parse t s.kv n (resource_key i)) ++ post)
      → get (resource_key i) (apply_plan json_stringify json_parse t (plan_whip_sweep es now) s).kv
        ≡ settle json_stringify json_parse t i raw
            (sweep_action i r (or_unknown (t.liveness r.session_id)) (t.now n))
  unfolding entry_for some_list action_of
  apply_found i raw r now s n es ok held loaded pre post a b q =
      let e : WhipSweepEntry = record {
        resource_id = i;
        resource = r;
        verdict = or_unknown (t.liveness r.session_id);
        observed_at = some (t.now n);
      } in
      let p : es ≡ pre ++ e ∷ post =
        rw (q, entry_of_resource json_stringify json_parse t s.kv n i ok, loaded) refl in
      rw p (
        apply_plan_unique json_stringify json_parse t i now pre e post s a refl b
        ∙ rw held (settle_lem json_stringify json_parse t (action_of now e) i raw))

  apply_Split :
      (i : String) (now : ℕ) (s : Sweeping) (es : List WhipSweepEntry)
      → is_resource_id i ≡ true
      → Split json_stringify json_parse t s.kv i es
      → (n : ℕ) × (get
            (resource_key i)
            (apply_plan json_stringify json_parse t (plan_whip_sweep es now) s).kv
          ≡ visit json_stringify json_parse t (t.now n) i (get (resource_key i) s.kv))
  unfolding visit load_resource
  apply_Split i now s es ok (n, pre, post, a, b, q) =
      elim (Option-cases (get (resource_key i) s.kv)) [
        | inl e ↦
            let none_there : load_resource json_parse s.kv i ≡ none = rw (e, load_resource) refl in
            (n, apply_unfound i now s n es ok none_there pre post a b q ∙ rw (e, visit) refl)
        | inr (raw, e) ↦ elim (Option-cases (read_raw json_parse raw)) [
          | inl f ↦
              let none_there : load_resource json_parse s.kv i ≡ none = rw (e, load_resource) f in
              (
                n,
                apply_unfound i now s n es ok none_there pre post a b q
                    ∙ rw (e, visit) (rw (f, visit) refl),
              )
          | inr (r, f) ↦
              let there : load_resource json_parse s.kv i ≡ some r = rw (e, load_resource) f in
              (
                n,
                apply_found i raw r now s n es ok e there pre post a b q
                    ∙ sym (
                        ap (visit json_stringify json_parse t (t.now n) i) e
                        ∙ visit_raw json_stringify json_parse t (t.now n) i raw r f),
              )
        ]
      ]

  -- Whatever other resources share the page, the sweep acts on a resource by the rule for one resource,
  -- at a time that the clock gave: if the page lists the key of the resource once, within the limit on
  -- the keys examined in the tick, what is stored under the key afterwards is what `visit` makes of
  -- what was stored before.
  pub sweep_page-visit :
      (limit : ℕ) (i : String) (xs ys : List String) (examined : ℕ) (s : Sweeping)
      → is_resource_id i ≡ true
      → All (λ n. id_of n ≢ i) xs
      → All (λ n. id_of n ≢ i) ys
      → examined + length xs < limit
      → (n : ℕ) × (get
            (resource_key i)
            (sweep_page json_stringify json_parse t limit
              (xs ++ resource_key i ∷ ys)
              examined
              s).1.kv
          ≡ visit json_stringify json_parse t (t.now n) i (get (resource_key i) s.kv))
  unfolding sweep_page
  sweep_page-visit limit i xs ys examined s ok h k lt =
      let scanning : Scan = record {
        examined = examined;
        scanned = s.stats.scanned;
        entries = [];
      } in
      let names = xs ++ resource_key i ∷ ys in
      let there = scan json_stringify json_parse t s.kv limit names scanning in
      let e : there.entries
          ≡ found json_stringify json_parse t s.kv limit names examined s.stats.scanned =
        scan-found json_stringify json_parse t s.kv limit names scanning in
      let split =
        found-Split json_stringify json_parse t s.kv limit i xs ys examined s.stats.scanned h k
          lt in
      let now = t.now there.scanned in
      let counted : Sweeping = record s {
        stats =
            count_scan json_stringify json_parse t there.entries (plan_whip_sweep there.entries now)
              s.stats;
      } in
      apply_Split i now counted there.entries ok
        (subst (Split json_stringify json_parse t s.kv i) (sym e) split)

  -- The converse of the limit: a resource whose key the page lists only past it is left as it is.
  pub sweep_page_past :
      (limit : ℕ) (i : String) (xs ys : List String) (examined : ℕ) (s : Sweeping)
      → All (λ n. id_of n ≢ i) xs
      → limit ≤ examined + length xs
      → get
          (resource_key i)
          (sweep_page json_stringify json_parse t limit (xs ++ ys) examined s).1.kv
        ≡ get (resource_key i) s.kv
  unfolding sweep_page
  sweep_page_past limit i xs ys examined s h le =
      let scanning : Scan = record {
        examined = examined;
        scanned = s.stats.scanned;
        entries = [];
      } in
      let names = xs ++ ys in
      let there = scan json_stringify json_parse t s.kv limit names scanning in
      let e : there.entries
          ≡ found json_stringify json_parse t s.kv limit names examined s.stats.scanned =
        scan-found json_stringify json_parse t s.kv limit names scanning in
      let now = t.now there.scanned in
      let counted : Sweeping = record s {
        stats =
            count_scan json_stringify json_parse t there.entries (plan_whip_sweep there.entries now)
              s.stats;
      } in
      apply_plan-Absent json_stringify json_parse t i now there.entries counted (
        rw e (
          found_past-Absent json_stringify json_parse t s.kv limit i xs ys examined s.stats.scanned
            h le))
