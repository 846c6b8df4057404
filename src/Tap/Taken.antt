-- ===== src/Tap/Taken.antt =====
-- src/media-tap.ts, next: what a call of next does to the account of a consumer.
use wave_realtime_edge.Common.{
  ℕ, ◌≤◌, ◌≡◌, refl, sym, ap, subst, ◌∙◌, inl, inr, true, some, List, [], ◌∷◌, ◌++◌, arith, length,
  length-append, append_assoc,
}
use wave_realtime_edge.Tap.Queue.{TapFrame, next_from, next}
use wave_realtime_edge.Tap.Fanout.{TapConsumer}
use wave_realtime_edge.Tap.Order.{IsSublist}
use wave_realtime_edge.Tap.Account.{
  Subscription, frames, HasNewest, IsAccount, frames-push, with_queue, List-cases,
}

module _ (high_water : ℕ) (pos : 1 ≤ high_water) where
  -- The oldest frame of the queue is handed over.
  taken-IsAccount :
      (f : TapFrame) (rest : List TapFrame) (s : Subscription) (c : TapConsumer)
      → IsAccount high_water s c
      → c.queue.buf ≡ f ∷ rest
      → IsAccount high_water s (with_queue c (next_from (f ∷ rest) c.queue))
  unfolding next_from
  taken-IsAccount f rest s c a e =
      let q = c.queue in
      let hs = frames q.handed in
      let r : hs ++ q.buf ≡ frames (q.handed ++ some f ∷ []) ++ rest =
        ap (◌++◌ hs) e
        ∙ sym (append_assoc hs (f ∷ []) rest)
        ∙ ap (λ z. z ++ rest) (sym (frames-push q.handed f)) in
      let long = ap length e in
      record {
        same_selector = a.same_selector;
        in_order = subst (λ z. IsSublist z s.offered) r a.in_order;
        newest = subst (λ z. HasNewest z s.offered) r a.newest;
        counted = omega (arith, a.counted, long);
        delivered_lem =
            omega (
              arith,
              a.delivered_lem,
              ap length (frames-push q.handed f),
              length-append hs (f ∷ []),
            );
        bounded = omega (arith, a.bounded, long);
        is_open = a.is_open;
        parked = elim a.parked [
          | inl w ↦ inl w
          | inr n ↦ absurd (let m = ap length n in omega (arith, long, m))
        ];
      }

  waits-IsAccount :
      (s : Subscription) (c : TapConsumer)
      → IsAccount high_water s c
      → c.queue.buf ≡ []
      → IsAccount high_water s (with_queue c (record (c.queue) { waiting = true }))
  waits-IsAccount s c a e = record {
    same_selector = a.same_selector;
    in_order = a.in_order;
    newest = a.newest;
    counted = a.counted;
    delivered_lem = a.delivered_lem;
    bounded = a.bounded;
    is_open = a.is_open;
    parked = inr e;
  }

  pub next-IsAccount :
      (s : Subscription) (c : TapConsumer)
      → IsAccount high_water s c
      → IsAccount high_water s (with_queue c (next c.queue))
  unfolding next
  next-IsAccount s c a = elim (List-cases c.queue.buf) [
    | inr (f, rest, e) ↦
        subst (λ z. IsAccount high_water s (with_queue c (next_from z c.queue))) (sym e)
          (taken-IsAccount f rest s c a e)
    | inl e ↦
        let open_still : (record (c.queue) { waiting = true }) ≡ next_from [] c.queue =
          unfold next_from in rw (a.is_open, next_from) refl in
        subst (λ z. IsAccount high_water s (with_queue c (next_from z c.queue))) (sym e)
          (subst (λ z. IsAccount high_water s (with_queue c z)) open_still
            (waits-IsAccount s c a e))
  ]
