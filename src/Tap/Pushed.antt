-- ===== src/Tap/Pushed.antt =====
-- src/media-tap.ts, push: what a published frame does to the account of a consumer.
use wave_realtime_edge.Common.{
  append-nil, ℕ, ◌+◌, ◌≤◌, ◌<◌, ◌≡◌, refl, sym, ap, subst, ◌∙◌, inl, inr, true, false, some, List,
  [], ◌∷◌, ◌++◌, arith, length, length-append, drop, leb, Bool-cases, append_assoc,
}
use wave_realtime_edge.Tap.Queue.{TapFrame, BoundedFrameQueue, empty_queue, push}
use wave_realtime_edge.Tap.Fanout.{TapSelector, selector_matches, TapConsumer, offer}
use wave_realtime_edge.Tap.Order.{IsSublist, IsSublist-push, IsSublist-without}
use wave_realtime_edge.Tap.Account.{
  Subscription, add_offered, frames, kept_of, HasNewest, IsAccount, frames-push, pushed, with_queue,
  newest_of, List-cases,
}

module _ (high_water : ℕ) (pos : 1 ≤ high_water) where
  pub empty-IsAccount :
      (selector : TapSelector)
      → IsAccount high_water
          (record { selector = selector; offered = [] })
          (record { selector = selector; queue = empty_queue })
  unfolding frames
  empty-IsAccount selector = record {
    same_selector = refl;
    in_order = IsSublist.nothing;
    newest = inl refl;
    counted = refl;
    delivered_lem = refl;
    bounded = omega arith;
    is_open = refl;
    parked = inl refl;
  }

  -- The frame goes to the end of the queue, if there is room.
  room-IsAccount :
      (f : TapFrame) (s : Subscription) (c : TapConsumer)
      → IsAccount high_water s c
      → c.queue.waiting ≡ false
      → length c.queue.buf < high_water
      → IsAccount high_water
          (pushed f s)
          (with_queue c (record (c.queue) { buf = c.queue.buf ++ f ∷ [] }))
  room-IsAccount f s c a w lt =
      let q = c.queue in
      let e = append_assoc (frames q.handed) q.buf (f ∷ []) in
      record {
        same_selector = a.same_selector;
        in_order = subst (λ z. IsSublist z (s.offered ++ f ∷ [])) e (IsSublist-push f a.in_order);
        newest =
            subst (λ z. HasNewest z (s.offered ++ f ∷ [])) e (newest_of (kept_of q) s.offered f);
        counted =
            omega
              (arith, a.counted, length-append q.buf (f ∷ []), length-append s.offered (f ∷ []));
        delivered_lem = a.delivered_lem;
        bounded = omega (arith, length-append q.buf (f ∷ []));
        is_open = a.is_open;
        parked = inl w;
      }

  -- The oldest frame of a full queue goes, and the new one to its end.
  full-IsAccount :
      (f b : TapFrame) (bs : List TapFrame) (s : Subscription) (c : TapConsumer)
      → IsAccount high_water s c
      → c.queue.waiting ≡ false
      → c.queue.buf ≡ b ∷ bs
      → IsAccount high_water (pushed f s) (
          with_queue c
            (record (c.queue) { buf = bs ++ f ∷ []; dropped_count = c.queue.dropped_count + 1 }))
  full-IsAccount f b bs s c a w e =
      let hs = frames c.queue.handed in
      let r = append_assoc hs bs (f ∷ []) in
      let long = ap length e in
      let more = length-append bs (f ∷ []) in
      let rest =
        IsSublist-without hs b bs (subst (λ z. IsSublist (hs ++ z) s.offered) e a.in_order) in
      record {
        same_selector = a.same_selector;
        in_order = subst (λ z. IsSublist z (s.offered ++ f ∷ [])) r (IsSublist-push f rest);
        newest =
            subst (λ z. HasNewest z (s.offered ++ f ∷ [])) r (newest_of (hs ++ bs) s.offered f);
        counted = omega (arith, a.counted, long, more, length-append s.offered (f ∷ []));
        delivered_lem = a.delivered_lem;
        bounded = omega (arith, a.bounded, long, more);
        is_open = a.is_open;
        parked = inl w;
      }

  -- A waiting call of next is resolved with the frame.
  parked-IsAccount :
      (f : TapFrame) (s : Subscription) (c : TapConsumer)
      → IsAccount high_water s c
      → c.queue.buf ≡ []
      → IsAccount high_water (pushed f s) (
          with_queue c (record (c.queue) {
            waiting = false;
            delivered_count = c.queue.delivered_count + 1;
            handed = c.queue.handed ++ some f ∷ [];
          }))
  parked-IsAccount f s c a e =
      let q = c.queue in
      let hs = frames q.handed in
      let r : (hs ++ q.buf) ++ f ∷ [] ≡ frames (q.handed ++ some f ∷ []) ++ q.buf = rw e (
        ap (λ z. z ++ f ∷ []) (append-nil hs)
        ∙ sym (frames-push q.handed f)
        ∙ sym (append-nil (frames (q.handed ++ some f ∷ [])))) in
      record {
        same_selector = a.same_selector;
        in_order = subst (λ z. IsSublist z (s.offered ++ f ∷ [])) r (IsSublist-push f a.in_order);
        newest =
            subst (λ z. HasNewest z (s.offered ++ f ∷ [])) r (newest_of (hs ++ q.buf) s.offered f);
        counted = omega (arith, a.counted, length-append s.offered (f ∷ []));
        delivered_lem =
            omega (
              arith,
              a.delivered_lem,
              ap length (frames-push q.handed f),
              length-append hs (f ∷ []),
            );
        bounded = a.bounded;
        is_open = a.is_open;
        parked = inl refl;
      }

  push_parked :
      (f : TapFrame) (q : BoundedFrameQueue)
      → q.closed ≡ false
      → q.waiting ≡ true
      → (record q {
        waiting = false;
        delivered_count = q.delivered_count + 1;
        handed = q.handed ++ some f ∷ [];
      })
        ≡ push high_water f q
  unfolding push
  push_parked f q c w = rw (c, w, push) refl

  push_room :
      (f : TapFrame) (q : BoundedFrameQueue)
      → q.closed ≡ false
      → q.waiting ≡ false
      → leb high_water (length q.buf) ≡ false
      → (record q { buf = q.buf ++ f ∷ [] }) ≡ push high_water f q
  unfolding push
  push_room f q c w r = rw (c, w, r, push) refl

  push_full :
      (f : TapFrame) (q : BoundedFrameQueue) (bs : List TapFrame)
      → q.closed ≡ false
      → q.waiting ≡ false
      → leb high_water (length q.buf) ≡ true
      → drop 1 q.buf ≡ bs
      → (record q { buf = bs ++ f ∷ []; dropped_count = q.dropped_count + 1 }) ≡ push high_water f q
  unfolding push
  push_full f q bs c w r e = rw (c, w, r, e, push) refl

  pub push-IsAccount :
      (f : TapFrame) (s : Subscription) (c : TapConsumer)
      → IsAccount high_water s c
      → IsAccount high_water (pushed f s) (with_queue c (push high_water f c.queue))
  unfolding push
  push-IsAccount f s c a = elim (Bool-cases c.queue.waiting) [
    | inl w ↦ elim a.parked [
      | inl n ↦ absurd (cc)
      | inr e ↦
          subst (λ z. IsAccount high_water (pushed f s) (with_queue c z))
            (push_parked f c.queue a.is_open w) (parked-IsAccount f s c a e)
    ]
    | inr w ↦ elim (Bool-cases (leb high_water (length c.queue.buf))) [
      | inr room ↦
          subst (λ z. IsAccount high_water (pushed f s) (with_queue c z))
            (push_room f c.queue a.is_open w room) (room-IsAccount f s c a w (ground arith))
      | inl full ↦ elim (List-cases c.queue.buf) [
        | inl e ↦ absurd (
            let l = ap length e in
            let z : high_water ≤ length c.queue.buf = ground arith in omega (arith, l))
        | inr (b, bs, e) ↦
            subst (λ z. IsAccount high_water (pushed f s) (with_queue c z))
              (push_full f c.queue bs a.is_open w full (ap (drop 1) e))
              (full-IsAccount f b bs s c a w e)
      ]
    ]
  ]

  -- A published frame is offered.
  pub offer-IsAccount :
      (f : TapFrame) (s : Subscription) (c : TapConsumer)
      → IsAccount high_water s c
      → (s' : Subscription) × (add_offered f (some s) ≡ some s')
        × IsAccount high_water s' (offer high_water f c)
  unfolding add_offered offer
  offer-IsAccount f s c a = elim (Bool-cases (selector_matches s.selector f)) [
    | inl m ↦
        let m' : selector_matches c.selector f ≡ true =
          ap (λ z. selector_matches z f) a.same_selector ∙ m in
        (
          pushed f s,
          rw (m, add_offered) refl,
          subst (IsAccount high_water (pushed f s)) (sym (rw (m', offer) refl))
              (push-IsAccount f s c a),
        )
    | inr m ↦
        let m' : selector_matches c.selector f ≡ false =
          ap (λ z. selector_matches z f) a.same_selector ∙ m in
        (s, rw (m, add_offered) refl, subst (IsAccount high_water s) (sym (rw (m', offer) refl)) a)
  ]
