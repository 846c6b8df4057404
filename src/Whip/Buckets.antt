-- ===== src/Whip/Buckets.antt =====
-- src/whip-sweep.ts: the lists of a plan, each as a function of the probed resources.
use wave_realtime_edge.Common.{
  append-nil, ℕ, String, ◌≡◌, refl, sym, inl, inr, Option, none, some, List, [], ◌∷◌, ◌++◌, arith,
  Bool-cases, append_assoc,
}
use wave_realtime_edge.Whip.Resource.{WhipResource}
use wave_realtime_edge.Whip.Plan.{
  Verdict, WhipSweepEntry, SweepWrite, SweepMark, SweepBill, WhipSweepPlan, SweepAction, confirm,
  idle_survives, sweep_action, or_now, action_of, push_action, plan_from, alive, gone, idle,
  disconnected, unknown, skip, refresh_with, mark_with, bill,
}

unfoldable pub bills_of : SweepAction → List SweepBill
bills_of skip = []
bills_of (refresh_with r) = []
bills_of (mark_with r reason) = []
bills_of (bill b) = b ∷ []

unfoldable pub marks_of : String → SweepAction → List SweepMark
marks_of resource_id skip = []
marks_of resource_id (refresh_with r) = []
marks_of resource_id (mark_with r reason) =
    (record { write = record { resource_id = resource_id; resource = r }; reason = reason }) ∷ []
marks_of resource_id (bill b) = []

unfoldable pub refreshes_of : String → SweepAction → List SweepWrite
refreshes_of resource_id skip = []
refreshes_of resource_id (refresh_with r) =
    (record { resource_id = resource_id; resource = r }) ∷ []
refreshes_of resource_id (mark_with r reason) = []
refreshes_of resource_id (bill b) = []

confirm-id :
    (i : String) (r : WhipResource) (v : Verdict) (at : ℕ) (o : Option ℕ) (b : SweepBill)
    → confirm i r v at o ≡ bill b
    → b.resource_id ≡ i
unfolding confirm
confirm-id i r v at none b h = absurd (cc)
confirm-id i r v at (some since) b h = ground arith

sweep_action-id :
    (i : String) (r : WhipResource) (v : Verdict) (at : ℕ) (b : SweepBill)
    → sweep_action i r v at ≡ bill b
    → b.resource_id ≡ i
unfolding sweep_action
sweep_action-id i r unknown at b h = absurd (cc)
sweep_action-id i r alive at b h = absurd (cc)
sweep_action-id i r idle at b h = elim (Bool-cases (idle_survives r at r.last_seen_at)) [
  | inl e ↦ absurd (let q : skip ≡ bill b = rw e at h in cc)
  | inr e ↦ confirm-id i r idle at r.disconnected_since b (rw e at h)
]
sweep_action-id i r gone at b h = confirm-id i r gone at r.disconnected_since b h
sweep_action-id i r disconnected at b h = confirm-id i r disconnected at r.disconnected_since b h

module _ (now : ℕ) where
  unfoldable pub bills : List WhipSweepEntry → List SweepBill
  bills [] = []
  bills (e ∷ es) = bills_of (action_of now e) ++ bills es

  unfoldable pub marks : List WhipSweepEntry → List SweepMark
  marks [] = []
  marks (e ∷ es) = marks_of e.resource_id (action_of now e) ++ marks es

  unfoldable pub refreshes : List WhipSweepEntry → List SweepWrite
  refreshes [] = []
  refreshes (e ∷ es) = refreshes_of e.resource_id (action_of now e) ++ refreshes es

  push-lists :
      (i : String) (a : SweepAction) (p : WhipSweepPlan)
      → ((push_action i a p).meter ≡ p.meter ++ bills_of a)
        × ((push_action i a p).mark ≡ p.mark ++ marks_of i a)
        × ((push_action i a p).refresh ≡ p.refresh ++ refreshes_of i a)
  unfolding push_action bills_of marks_of refreshes_of
  push-lists i skip p =
      (sym (append-nil p.meter), sym (append-nil p.mark), sym (append-nil p.refresh))
  push-lists i (refresh_with r) p = (sym (append-nil p.meter), sym (append-nil p.mark), refl)
  push-lists i (mark_with r reason) p = (sym (append-nil p.meter), refl, sym (append-nil p.refresh))
  push-lists i (bill b) p = (refl, sym (append-nil p.mark), sym (append-nil p.refresh))

  pub plan_from-lists :
      (es : List WhipSweepEntry) (p : WhipSweepPlan)
      → ((plan_from now es p).meter ≡ p.meter ++ bills es)
        × ((plan_from now es p).mark ≡ p.mark ++ marks es)
        × ((plan_from now es p).refresh ≡ p.refresh ++ refreshes es)
  unfolding plan_from bills marks refreshes
  plan_from-lists [] p =
      (sym (append-nil p.meter), sym (append-nil p.mark), sym (append-nil p.refresh))
  plan_from-lists (e ∷ es) p =
      let a = action_of now e in
      let (pm, pk, pr) = push-lists e.resource_id a p in
      let (m, k, r) = plan_from-lists es (push_action e.resource_id a p) in
      (
        rw (m, pm) (append_assoc p.meter (bills_of a) (bills es)),
        rw (k, pk) (append_assoc p.mark (marks_of e.resource_id a) (marks es)),
        rw (r, pr) (append_assoc p.refresh (refreshes_of e.resource_id a) (refreshes es)),
      )

  -- What `action_of` bills, it bills under the id of the entry.
  pub bill_id :
      (e : WhipSweepEntry) (b : SweepBill)
      → action_of now e ≡ bill b
      → b.resource_id ≡ e.resource_id
  unfolding action_of
  bill_id e b h = sweep_action-id e.resource_id e.resource e.verdict (or_now now e.observed_at) b h
