-- ===== src/Whip/Found.antt =====
-- src/whip-sweep.ts: which entries the loop over the keys of a page finds.
use wave_realtime_edge.Common.{
  append-nil, ℕ, ◌+◌, ◌≤◌, ◌<◌, String, ◌≡◌, refl, sym, ap, ◌∙◌, ◌≢◌, ◌⊎◌, inl, inr, true, false,
  Option, none, some, List, [], ◌∷◌, ◌++◌, arith, length, All, All-append, leb, if◌then◌else◌,
  Option-cases, Bool-cases, append_assoc,
}
use wave_realtime_edge.Whip.Resource.{
  is_resource_id, resource_key, id_of, id_of-resource_key, WhipResource, PartialResource, WhipStore,
  load_resource,
}
use wave_realtime_edge.Whip.Plan.{WhipSweepEntry}
use wave_realtime_edge.Whip.Sweep.{Tick, Scan, or_unknown, entry_at, entry_of, add_entry, scan}
use wave_realtime_edge.Whip.Effects.{Absent}

unfoldable pub some_list {ℓ} : {A : Type ℓ} → Option A → List A
some_list none = []
some_list (some a) = a ∷ []

module _ (json_stringify : WhipResource → String) (json_parse : String → Option PartialResource)
    (t : Tick) where
  -- The entries that `scan` finds, without the accumulator.
  pub found : WhipStore → ℕ → List String → ℕ → ℕ → List WhipSweepEntry
  found kv limit [] examined scanned = []
  found kv limit (n ∷ ns) examined scanned =
      let here = some_list (entry_of json_stringify json_parse t kv scanned n) in
      let rest = here ++ found kv limit ns (examined + 1) (scanned + length here) in
      if leb limit examined then [] else rest

  add_entry-found :
      (kv : WhipStore) (limit : ℕ) (ns : List String) (o : Option WhipSweepEntry) (s : Scan)
      → let s' = add_entry json_stringify json_parse t o s in
        s'.entries ++ found kv limit ns s'.examined s'.scanned
        ≡ s.entries
          ++ (some_list o ++ found kv limit ns s.examined (s.scanned + length (some_list o)))
  unfolding add_entry some_list
  add_entry-found kv limit ns none s = let e : s.scanned + 0 ≡ s.scanned = omega arith in rw e refl
  add_entry-found kv limit ns (some e) s =
      append_assoc s.entries (e ∷ []) (found kv limit ns s.examined (s.scanned + 1))

  pub scan-found :
      (kv : WhipStore) (limit : ℕ) (ns : List String) (s : Scan)
      → (scan json_stringify json_parse t kv limit ns s).entries
        ≡ s.entries ++ found kv limit ns s.examined s.scanned
  unfolding scan found
  scan-found kv limit [] s = sym (append-nil s.entries)
  scan-found kv limit (n ∷ ns) s =
      let o = entry_of json_stringify json_parse t kv s.scanned n in
      let s1 : Scan = record s { examined = s.examined + 1 } in
      elim (Bool-cases (leb limit s.examined)) [
        | inl e ↦ rw (e, scan, found) (sym (append-nil s.entries))
        | inr e ↦
            rw (e, scan, found)
              (scan-found kv limit ns (add_entry json_stringify json_parse t o s1)
                ∙ add_entry-found kv limit ns o s1)
      ]

  unfoldable pub entry_for : String → ℕ → Option WhipResource → Option WhipSweepEntry
  entry_for i scanned none = none
  entry_for i scanned (some r) = some (record {
    resource_id = i;
    resource = r;
    verdict = or_unknown (t.liveness r.session_id);
    observed_at = some (t.now scanned);
  })

  entry_at_resource :
      (kv : WhipStore) (n : ℕ) (i : String)
      → is_resource_id i ≡ true
      → entry_at json_stringify json_parse t kv n i ≡ entry_for i n (load_resource json_parse kv i)
  unfolding entry_at entry_for
  entry_at_resource kv n i ok = elim (Option-cases (load_resource json_parse kv i)) [
    | inl f ↦ rw (ok, f, entry_at) refl
    | inr (r, f) ↦ rw (ok, f, entry_at) refl
  ]

  entry_of-cases :
      (kv : WhipStore) (scanned : ℕ) (n : String)
      → (entry_of json_stringify json_parse t kv scanned n ≡ none)
        ⊎ (entry_of json_stringify json_parse t kv scanned n
            ≡ entry_for (id_of n) scanned (load_resource json_parse kv (id_of n)))
  unfolding entry_of
  entry_of-cases kv scanned n = elim (Bool-cases (is_resource_id (id_of n))) [
    | inr e ↦ inl (rw (e, entry_at) refl)
    | inl e ↦ inr (entry_at_resource kv scanned (id_of n) e)
  ]

  entry_for-id :
      (i : String) (scanned : ℕ) (o : Option WhipResource)
      → All (λ e. e.resource_id ≡ i) (some_list (entry_for i scanned o))
  unfolding some_list entry_for
  entry_for-id i scanned none = tt
  entry_for-id i scanned (some r) = (refl, tt)

  entry_of-Absent :
      (kv : WhipStore) (scanned : ℕ) (i n : String)
      → id_of n ≢ i
      → Absent i (some_list (entry_of json_stringify json_parse t kv scanned n))
  unfolding some_list entry_for
  entry_of-Absent kv scanned i n ne = elim (entry_of-cases kv scanned n) [
    | inl e ↦ rw e tt
    | inr e ↦ elim (Option-cases (load_resource json_parse kv (id_of n))) [
      | inl f ↦ rw (e, f) tt
      | inr (r, f) ↦ rw (e, f) (ne, tt)
    ]
  ]

  found-Absent :
      (kv : WhipStore) (limit : ℕ) (i : String) (ns : List String) (examined scanned : ℕ)
      → All (λ n. id_of n ≢ i) ns
      → Absent i (found kv limit ns examined scanned)
  unfolding found
  found-Absent kv limit i [] examined scanned h = tt
  found-Absent kv limit i (n ∷ ns) examined scanned (p, h) =
      elim (Bool-cases (leb limit examined)) [
        | inl e ↦ rw (e, found) tt
        | inr e ↦
            rw (e, found)
              (All-append (λ e. e.resource_id ≢ i) _ _ (entry_of-Absent kv scanned i n p)
                (found-Absent kv limit i ns (examined + 1) _ h))
      ]

  -- A resource whose keys all stand past the limit is not found.
  pub found_past-Absent :
      (kv : WhipStore) (limit : ℕ) (i : String) (xs ys : List String) (examined scanned : ℕ)
      → All (λ n. id_of n ≢ i) xs
      → limit ≤ examined + length xs
      → Absent i (found kv limit (xs ++ ys) examined scanned)
  unfolding found
  found_past-Absent kv limit i [] [] examined scanned h le = tt
  found_past-Absent kv limit i [] (y ∷ ys) examined scanned h le =
      let e : leb limit examined ≡ true = ground arith in rw (e, found) tt
  found_past-Absent kv limit i (n ∷ ns) ys examined scanned (p, h) le =
      elim (Bool-cases (leb limit examined)) [
        | inl e ↦ rw (e, found) tt
        | inr e ↦
            rw (e, found)
              (All-append (λ e. e.resource_id ≢ i) _ _ (entry_of-Absent kv scanned i n p)
                (found_past-Absent kv limit i ns ys (examined + 1) _ h (omega arith)))
      ]

  -- The entries before, at and after the first key of a resource.
  abbrev pub Split : WhipStore → String → List WhipSweepEntry → Type 0
  Split kv i es =
      (n : ℕ) × (pre : List WhipSweepEntry) × (post : List WhipSweepEntry) × Absent i pre
      × Absent i post
      × (es
          ≡ pre ++ (some_list (entry_of json_stringify json_parse t kv n (resource_key i)) ++ post))

  pub found-Split :
      (kv : WhipStore) (limit : ℕ) (i : String) (xs ys : List String) (examined scanned : ℕ)
      → All (λ n. id_of n ≢ i) xs
      → All (λ n. id_of n ≢ i) ys
      → examined + length xs < limit
      → Split kv i (found kv limit (xs ++ resource_key i ∷ ys) examined scanned)
  unfolding found
  found-Split kv limit i [] ys examined scanned h k lt =
      let e : leb limit examined ≡ false = ground arith in
      let here = some_list (entry_of json_stringify json_parse t kv scanned (resource_key i)) in
      let later = found kv limit ys (examined + 1) (scanned + length here) in
      (
        scanned,
        [],
        later,
        tt,
        found-Absent kv limit i ys (examined + 1) (scanned + length here) k,
        rw (e, found) refl,
      )
  found-Split kv limit i (x ∷ xs) ys examined scanned (p, h) k lt =
      let here = some_list (entry_of json_stringify json_parse t kv scanned x) in
      let e : leb limit examined ≡ false = ground arith in
      let (n, pre, post, a, b, q) =
        found-Split kv limit i xs ys (examined + 1) (scanned + length here) h k (omega arith) in
      (
        n,
        here ++ pre,
        post,
        All-append (λ e. e.resource_id ≢ i) here pre (entry_of-Absent kv scanned i x p) a,
        b,
        rw (e, found) (rw q (sym (append_assoc here pre _))),
      )

  pub entry_of_resource :
      (kv : WhipStore) (n : ℕ) (i : String)
      → is_resource_id i ≡ true
      → entry_of json_stringify json_parse t kv n (resource_key i)
        ≡ entry_for i n (load_resource json_parse kv i)
  unfolding entry_of
  entry_of_resource kv n i ok =
      ap (entry_at json_stringify json_parse t kv n) (id_of-resource_key i)
      ∙ entry_at_resource kv n i ok
