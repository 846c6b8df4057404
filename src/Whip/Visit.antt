-- ===== src/Whip/Visit.antt =====
-- src/whip-sweep.ts: the effect of the loops of a sweep on the record of one resource.
use wave_realtime_edge.Common.{
  ℕ, String, str_eq, ◌≡◌, refl, ap, ◌∙◌, Bool, true, false, Option, List, [], ◌∷◌, ◌++◌,
  if◌then◌else◌, get,
}
use wave_realtime_edge.Whip.Resource.{resource_key, WhipResource, PartialResource}
use wave_realtime_edge.Whip.Plan.{
  WhipSweepEntry, SweepWrite, SweepMark, SweepBill, SweepAction, action_of, empty_plan,
  plan_whip_sweep, skip, refresh_with, mark_with, bill,
}
use wave_realtime_edge.Whip.Sweep.{
  Tick, Sweeping, bill_one, bill_all, mark_one, mark_all, refresh_one, refresh_all, apply_plan,
}
use wave_realtime_edge.Whip.Buckets.{
  bills_of, marks_of, refreshes_of, bills, marks, refreshes, plan_from-lists,
}
use wave_realtime_edge.Whip.Effects.{
  Absent, billed, marked, refreshed, at_key, at_key-Absent, at_key_unique, bill_one-get,
  mark_one-get, refresh_one-get,
}

module _ (json_stringify : WhipResource → String) (json_parse : String → Option PartialResource)
    (t : Tick) where
  bill_all-append :
      (bs cs : List SweepBill) (s : Sweeping)
      → bill_all json_stringify json_parse t (bs ++ cs) s
        ≡ bill_all json_stringify json_parse t cs (bill_all json_stringify json_parse t bs s)
  unfolding bill_all
  bill_all-append [] cs s = refl
  bill_all-append (b ∷ bs) cs s = bill_all-append bs cs (bill_one json_stringify json_parse t b s)

  mark_all-append :
      (bs cs : List SweepMark) (s : Sweeping)
      → mark_all json_stringify json_parse t (bs ++ cs) s
        ≡ mark_all json_stringify json_parse t cs (mark_all json_stringify json_parse t bs s)
  unfolding mark_all
  mark_all-append [] cs s = refl
  mark_all-append (b ∷ bs) cs s = mark_all-append bs cs (mark_one json_stringify json_parse t b s)

  refresh_all-append :
      (bs cs : List SweepWrite) (s : Sweeping)
      → refresh_all json_stringify json_parse t (bs ++ cs) s
        ≡ refresh_all json_stringify json_parse t cs (refresh_all json_stringify json_parse t bs s)
  unfolding refresh_all
  refresh_all-append [] cs s = refl
  refresh_all-append (b ∷ bs) cs s =
      refresh_all-append bs cs (refresh_one json_stringify json_parse t b s)

  same_if : (b : Bool) (o : Option String) → o ≡ (if b then o else o)
  same_if true o = refl
  same_if false o = refl

  bills_of-get :
      (i : String) (now : ℕ) (e : WhipSweepEntry) (s : Sweeping) (a : SweepAction)
      → action_of now e ≡ a
      → get (resource_key i) (bill_all json_stringify json_parse t (bills_of a) s).kv ≡ (
          if str_eq e.resource_id i
          then billed json_stringify json_parse t a i (get (resource_key i) s.kv)
          else get (resource_key i) s.kv)
  unfolding bill_all bills_of billed
  bills_of-get i now e s skip h = same_if (str_eq e.resource_id i) (get (resource_key i) s.kv)
  bills_of-get i now e s (refresh_with r) h =
      same_if (str_eq e.resource_id i) (get (resource_key i) s.kv)
  bills_of-get i now e s (mark_with r reason) h =
      same_if (str_eq e.resource_id i) (get (resource_key i) s.kv)
  bills_of-get i now e s (bill b) h = bill_one-get json_stringify json_parse t i now e b s h

  marks_of-get :
      (i : String) (e : WhipSweepEntry) (s : Sweeping) (a : SweepAction)
      → get (resource_key i) (mark_all json_stringify json_parse t (marks_of e.resource_id a) s).kv
        ≡ (if str_eq e.resource_id i
            then marked json_stringify json_parse t a i (get (resource_key i) s.kv)
            else get (resource_key i) s.kv)
  unfolding mark_all marks_of marked
  marks_of-get i e s skip = same_if (str_eq e.resource_id i) (get (resource_key i) s.kv)
  marks_of-get i e s (refresh_with r) = same_if (str_eq e.resource_id i) (get (resource_key i) s.kv)
  marks_of-get i e s (mark_with r reason) =
      let w : SweepWrite = record { resource_id = e.resource_id; resource = r } in
      let m : SweepMark = record { write = w; reason = reason } in
      mark_one-get json_stringify json_parse t i e.resource_id r reason m s refl refl
  marks_of-get i e s (bill b) = same_if (str_eq e.resource_id i) (get (resource_key i) s.kv)

  refreshes_of-get :
      (i : String) (e : WhipSweepEntry) (s : Sweeping) (a : SweepAction)
      → get
          (resource_key i)
          (refresh_all json_stringify json_parse t (refreshes_of e.resource_id a) s).kv
        ≡ (if str_eq e.resource_id i
            then refreshed json_stringify json_parse t a i (get (resource_key i) s.kv)
            else get (resource_key i) s.kv)
  unfolding refresh_all refreshes_of refreshed
  refreshes_of-get i e s skip = same_if (str_eq e.resource_id i) (get (resource_key i) s.kv)
  refreshes_of-get i e s (refresh_with r) =
      refresh_one-get json_stringify json_parse t i e.resource_id r _ s refl refl
  refreshes_of-get i e s (mark_with r reason) =
      same_if (str_eq e.resource_id i) (get (resource_key i) s.kv)
  refreshes_of-get i e s (bill b) = same_if (str_eq e.resource_id i) (get (resource_key i) s.kv)

  bill_all-get :
      (i : String) (now : ℕ) (es : List WhipSweepEntry) (s : Sweeping)
      → get (resource_key i) (bill_all json_stringify json_parse t (bills now es) s).kv
        ≡ at_key json_stringify json_parse t
            (billed json_stringify json_parse t)
            now
            i
            es
            (get (resource_key i) s.kv)
  unfolding at_key bills
  bill_all-get i now [] s = unfold bill_all in refl
  bill_all-get i now (e ∷ es) s =
      rw (bill_all-append (bills_of (action_of now e)) (bills now es) s) (
        bill_all-get i now es _
        ∙ ap (at_key json_stringify json_parse t (billed json_stringify json_parse t) now i es)
            (bills_of-get i now e s (action_of now e) refl))

  mark_all-get :
      (i : String) (now : ℕ) (es : List WhipSweepEntry) (s : Sweeping)
      → get (resource_key i) (mark_all json_stringify json_parse t (marks now es) s).kv
        ≡ at_key json_stringify json_parse t
            (marked json_stringify json_parse t)
            now
            i
            es
            (get (resource_key i) s.kv)
  unfolding at_key marks
  mark_all-get i now [] s = unfold mark_all in refl
  mark_all-get i now (e ∷ es) s =
      rw (mark_all-append (marks_of e.resource_id (action_of now e)) (marks now es) s) (
        mark_all-get i now es _
        ∙ ap (at_key json_stringify json_parse t (marked json_stringify json_parse t) now i es)
            (marks_of-get i e s (action_of now e)))

  refresh_all-get :
      (i : String) (now : ℕ) (es : List WhipSweepEntry) (s : Sweeping)
      → get (resource_key i) (refresh_all json_stringify json_parse t (refreshes now es) s).kv
        ≡ at_key json_stringify json_parse t
            (refreshed json_stringify json_parse t)
            now
            i
            es
            (get (resource_key i) s.kv)
  unfolding at_key refreshes
  refresh_all-get i now [] s = unfold refresh_all in refl
  refresh_all-get i now (e ∷ es) s =
      rw (refresh_all-append (refreshes_of e.resource_id (action_of now e)) (refreshes now es) s) (
        refresh_all-get i now es _
        ∙ ap (at_key json_stringify json_parse t (refreshed json_stringify json_parse t) now i es)
            (refreshes_of-get i e s (action_of now e)))

  -- The three loops on the record of a resource that one entry is about.
  pub apply_plan_unique :
      (i : String) (now : ℕ) (xs : List WhipSweepEntry) (e : WhipSweepEntry)
      (ys : List WhipSweepEntry) (s : Sweeping)
      → Absent i xs
      → e.resource_id ≡ i
      → Absent i ys
      → let a = action_of now e in
        get
          (resource_key i)
          (apply_plan json_stringify json_parse t (plan_whip_sweep (xs ++ e ∷ ys) now) s).kv
        ≡ refreshed json_stringify json_parse t a i (
            marked json_stringify json_parse t a i
              (billed json_stringify json_parse t a i (get (resource_key i) s.kv)))
  unfolding apply_plan plan_whip_sweep
  apply_plan_unique i now xs e ys s h p k =
      let es = xs ++ e ∷ ys in
      let (m, n, r) = plan_from-lists now es empty_plan in
      rw (m, n, r)
        (refresh_all-get i now es _
          ∙ at_key_unique json_stringify json_parse t (refreshed json_stringify json_parse t) now i
              xs e ys _ h p k
          ∙ ap (refreshed json_stringify json_parse t (action_of now e) i) (
              mark_all-get i now es _
              ∙ at_key_unique json_stringify json_parse t (marked json_stringify json_parse t) now i
                  xs e ys _ h p k
              ∙ ap (marked json_stringify json_parse t (action_of now e) i) (
                  bill_all-get i now es s
                  ∙ at_key_unique json_stringify json_parse t (billed json_stringify json_parse t)
                      now i xs e ys _ h p k)))

  -- A resource that no entry is about keeps its record.
  pub apply_plan-Absent :
      (i : String) (now : ℕ) (es : List WhipSweepEntry) (s : Sweeping)
      → Absent i es
      → get (resource_key i) (apply_plan json_stringify json_parse t (plan_whip_sweep es now) s).kv
        ≡ get (resource_key i) s.kv
  unfolding apply_plan plan_whip_sweep
  apply_plan-Absent i now es s h =
      let (m, n, r) = plan_from-lists now es empty_plan in
      rw (m, n, r)
        (refresh_all-get i now es _
          ∙ at_key-Absent json_stringify json_parse t (refreshed json_stringify json_parse t) now i
              es _ h
          ∙ mark_all-get i now es _
          ∙ at_key-Absent json_stringify json_parse t (marked json_stringify json_parse t) now i es
              _ h
          ∙ bill_all-get i now es s
          ∙ at_key-Absent json_stringify json_parse t (billed json_stringify json_parse t) now i es
              _ h)
