-- ===== src/Whip/Effects.antt =====
-- src/whip-sweep.ts: what billing, marking and refreshing make of the record of one resource.
use wave_realtime_edge.Common.{
  get-del, ℕ, String, str_eq, ◌≡◌, refl, sym, ap, ◌∙◌, ◌≢◌, inl, inr, true, Option, none, some,
  List, [], ◌∷◌, ◌++◌, arith, All, if◌then◌else◌, get, Bool-cases, eq_iff, eq_refl, get-put, eq_ne,
}
use wave_realtime_edge.Whip.Resource.{
  resource_key, id_of, id_of-resource_key, WhipResource, PartialResource,
}
use wave_realtime_edge.Whip.Meter.{deliver_whip_teardown_meter}
use wave_realtime_edge.Whip.Plan.{
  WhipSweepEntry, MarkReason, SweepWrite, SweepMark, SweepBill, SweepAction, action_of, skip,
  refresh_with, mark_with, bill,
}
use wave_realtime_edge.Whip.Sweep.{Tick, Sweeping, bill_one, mark_one, refresh_one}
use wave_realtime_edge.Whip.Buckets.{bill_id}

-- No entry is about that resource.
abbrev pub Absent : String → List WhipSweepEntry → Type 0
Absent i es = All (λ e. e.resource_id ≢ i) es

resource_key-eq : (i j : String) → str_eq (resource_key i) (resource_key j) ≡ str_eq i j
resource_key-eq i j =
    let back : resource_key i ≡ resource_key j → i ≡ j =
      λ h. sym (id_of-resource_key i) ∙ ap id_of h ∙ id_of-resource_key j in
    elim (Bool-cases (str_eq i j)) [
      | inl e ↦ let p : i ≡ j = (eq_iff i j).0 e in rw e (rw p (eq_refl (resource_key j)))
      | inr e ↦ elim (Bool-cases (str_eq (resource_key i) (resource_key j))) [
        | inl f ↦ absurd (
            let p : i ≡ j = back ((eq_iff (resource_key i) (resource_key j)).0 f) in
            let q : str_eq i j ≡ true = rw p (eq_refl j) in cc)
        | inr f ↦ f ∙ sym e
      ]
    ]

module _ (json_stringify : WhipResource → String) (json_parse : String → Option PartialResource)
    (t : Tick) where
  -- What billing, marking and refreshing make of the text under the key of the resource.
  unfoldable pub billed : SweepAction → String → Option String → Option String
  billed (bill b) i o =
      if deliver_whip_teardown_meter true t.fetch b.org b.line
      then (if t.kv_fails (resource_key i) then o else none)
      else o
  billed skip i o = o
  billed (refresh_with r) i o = o
  billed (mark_with r reason) i o = o

  unfoldable pub marked : SweepAction → String → Option String → Option String
  marked (mark_with r reason) i o =
      if t.kv_fails (resource_key i) then o else some (json_stringify r)
  marked skip i o = o
  marked (refresh_with r) i o = o
  marked (bill b) i o = o

  unfoldable pub refreshed : SweepAction → String → Option String → Option String
  refreshed (refresh_with r) i o =
      if t.kv_fails (resource_key i) then o else some (json_stringify r)
  refreshed skip i o = o
  refreshed (mark_with r reason) i o = o
  refreshed (bill b) i o = o

  -- One of these effects for each entry about the resource.
  unfoldable pub at_key :
      (SweepAction → String → Option String → Option String)
      → ℕ
      → String
      → List WhipSweepEntry
      → Option String
      → Option String
  at_key f now i [] o = o
  at_key f now i (e ∷ es) o =
      at_key f now i es (if str_eq e.resource_id i then f (action_of now e) i o else o)

  pub at_key-Absent :
      (f : SweepAction → String → Option String → Option String) (now : ℕ) (i : String)
      (es : List WhipSweepEntry) (o : Option String)
      → Absent i es
      → at_key f now i es o ≡ o
  unfolding at_key
  at_key-Absent f now i [] o h = refl
  at_key-Absent f now i (e ∷ es) o (p, h) =
      rw (eq_ne e.resource_id i p) (at_key-Absent f now i es o h)

  pub at_key_unique :
      (f : SweepAction → String → Option String → Option String) (now : ℕ) (i : String)
      (xs : List WhipSweepEntry) (e : WhipSweepEntry) (ys : List WhipSweepEntry) (o : Option String)
      → Absent i xs
      → e.resource_id ≡ i
      → Absent i ys
      → at_key f now i (xs ++ e ∷ ys) o ≡ f (action_of now e) i o
  unfolding at_key
  at_key_unique f now i [] e ys o h p k =
      let same : str_eq e.resource_id i ≡ true = (eq_iff e.resource_id i).1 p in
      rw (same, at_key) (at_key-Absent f now i ys (f (action_of now e) i o) k)
  at_key_unique f now i (x ∷ xs) e ys o (q, h) p k =
      rw (eq_ne x.resource_id i q, at_key) (at_key_unique f now i xs e ys o h p k)

  pub bill_one-get :
      (i : String) (now : ℕ) (e : WhipSweepEntry) (b : SweepBill) (s : Sweeping)
      → action_of now e ≡ bill b
      → get (resource_key i) (bill_one json_stringify json_parse t b s).kv ≡ (
          if str_eq e.resource_id i
          then billed (bill b) i (get (resource_key i) s.kv)
          else get (resource_key i) s.kv)
  unfolding bill_one billed
  bill_one-get i now e b s h =
      let q = resource_key-eq b.resource_id i in
      let d = get-del (resource_key b.resource_id) (resource_key i) s.kv in
      let p : b.resource_id ≡ e.resource_id = bill_id now e b h in
      let u = eq_iff e.resource_id i in ground (arith, q, d, p, u)

  pub mark_one-get :
      (i j : String) (r : WhipResource) (reason : MarkReason) (m : SweepMark) (s : Sweeping)
      → m.write.resource_id ≡ j
      → m.write.resource ≡ r
      → get (resource_key i) (mark_one json_stringify json_parse t m s).kv ≡ (
          if str_eq j i
          then marked (mark_with r reason) i (get (resource_key i) s.kv)
          else get (resource_key i) s.kv)
  unfolding mark_one marked
  mark_one-get i j r reason m s p q = ground (
    arith,
    resource_key-eq m.write.resource_id i,
    get-put (resource_key m.write.resource_id) (resource_key i) (json_stringify m.write.resource)
        s.kv,
    eq_iff j i,
  )

  pub refresh_one-get :
      (i j : String) (r : WhipResource) (w : SweepWrite) (s : Sweeping)
      → w.resource_id ≡ j
      → w.resource ≡ r
      → get (resource_key i) (refresh_one json_stringify json_parse t w s).kv ≡ (
          if str_eq j i
          then refreshed (refresh_with r) i (get (resource_key i) s.kv)
          else get (resource_key i) s.kv)
  unfolding refresh_one refreshed
  refresh_one-get i j r w s p q = ground (
    arith,
    resource_key-eq w.resource_id i,
    get-put (resource_key w.resource_id) (resource_key i) (json_stringify w.resource) s.kv,
    eq_iff j i,
  )
