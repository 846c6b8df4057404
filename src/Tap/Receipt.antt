-- ===== src/Tap/Receipt.antt =====
-- src/media-tap.ts: the account of a consumer along any calls of the tap.
use wave_realtime_edge.Common.{
  get-del, ℕ, ◌+◌, ◌≤◌, String, str_eq, ◌≡◌, refl, sym, ap, ap₂, subst, ◌∙◌, inl, inr, Option, none,
  some, List, [], ◌∷◌, if◌then◌else◌, Dict, get, put, del, Bool-cases, eq_iff, get-put,
}
use wave_realtime_edge.Tap.Queue.{TapFrame, empty_queue, next}
use wave_realtime_edge.Tap.Fanout.{
  TapFrameInput, TapSelector, TapConsumer, MediaTap, new_tap, subscribe, frame_of, offer, offer_all,
  publish, unsubscribe, next_of, drain,
}
use wave_realtime_edge.Tap.Pushed.{empty-IsAccount, offer-IsAccount}
use wave_realtime_edge.Tap.Taken.{next-IsAccount}
use wave_realtime_edge.Tap.Account.{
  TapCall, perform, perform_all, Subscription, add_offered, observe, observe_all, IsAccount,
  with_queue, subscribe_as, publish_frame, unsubscribe_as, drain_as,
}

option_map : (TapConsumer → TapConsumer) → Option TapConsumer → Option TapConsumer
option_map f none = none
option_map f (some c) = some (f c)

get-offer_all :
    (high_water : ℕ) (f : TapFrame) (c : String) (m : Dict TapConsumer)
    → get c (offer_all high_water f m) ≡ option_map (offer high_water f) (get c m)
unfolding get offer_all option_map
get-offer_all high_water f c [] = refl
get-offer_all high_water f c ((id, k) ∷ m) = elim (Bool-cases (str_eq id c)) [
  | inl e ↦ rw (e, get) refl
  | inr e ↦ rw (e, get) (get-offer_all high_water f c m)
]

module _ (high_water : ℕ) (pos : 1 ≤ high_water) (c : String) where
  -- The consumer that the tap has under the id is the one that the calls tell of.
  abbrev Agree : Option TapConsumer → Option Subscription → Type 0
  Agree none none = Unit
  Agree none (some s) = ⊥
  Agree (some k) none = ⊥
  Agree (some k) (some s) = IsAccount high_water s k

  record Follows (tap : MediaTap) (o : ℕ × Option Subscription) : Type 0 where
    same_limit : tap.high_water ≡ high_water
    same_seq : tap.seq ≡ o.0
    agree : Agree (get c tap.consumers) o.1

  offered-Agree :
      (f : TapFrame) (k : Option TapConsumer) (s : Option Subscription)
      → Agree k s
      → Agree (option_map (offer high_water f) k) (add_offered f s)
  unfolding option_map
  offered-Agree f none none h = unfold add_offered in tt
  offered-Agree f none (some s) h = elim h [ ]
  offered-Agree f (some k) none h = elim h [ ]
  offered-Agree f (some k) (some s) h =
      let (s', e, a) = offer-IsAccount high_water pos f s k h in
      subst (Agree (some (offer high_water f k))) (sym e) a

  subscribed-Agree :
      (id : String) (selector : TapSelector) (m : Dict TapConsumer) (s : Option Subscription)
      → Agree (get c m) s
      → Agree
          (get c (put id (record { selector = selector; queue = empty_queue }) m))
          (if str_eq id c then some (record { selector = selector; offered = [] }) else s)
  subscribed-Agree id selector m s h =
      let new : TapConsumer = record { selector = selector; queue = empty_queue } in
      elim (Bool-cases (str_eq id c)) [
        | inl e ↦ rw (get-put id c new m, e) (empty-IsAccount high_water pos selector)
        | inr e ↦ rw (get-put id c new m, e) h
      ]

  unsubscribed-Agree :
      (id : String) (m : Dict TapConsumer) (s : Option Subscription)
      → Agree (get c m) s
      → Agree (get c (del id m)) (if str_eq id c then none else s)
  unsubscribed-Agree id m s h = elim (Bool-cases (str_eq id c)) [
    | inl e ↦ rw (get-del id c m, e) tt
    | inr e ↦ rw (get-del id c m, e) h
  ]

  nexted-Agree :
      (k : TapConsumer) (s : Option Subscription)
      → Agree (some k) s
      → Agree (some (with_queue k (next k.queue))) s
  nexted-Agree k none h = elim h [ ]
  nexted-Agree k (some s) h = next-IsAccount high_water pos s k h

  -- The consumer of an id has taken a frame.
  drained-Agree :
      (id : String) (tap : MediaTap) (k : Option TapConsumer) (s : Option Subscription)
      → get id tap.consumers ≡ k
      → Agree (get c tap.consumers) s
      → Agree (get c (next_of k id tap).consumers) s
  unfolding next_of
  drained-Agree id tap none s e h = h
  drained-Agree id tap (some k) s e h =
      let k' = with_queue k (next k.queue) in
      elim (Bool-cases (str_eq id c)) [
        | inr ne ↦ rw (get-put id c k' tap.consumers, ne) h
        | inl same ↦
            let there : get c tap.consumers ≡ some k =
              ap (λ z. get z tap.consumers) (sym ((eq_iff id c).0 same)) ∙ e in
            rw (get-put id c k' tap.consumers, same)
              (nexted-Agree k s (subst (λ z. Agree z s) there h))
      ]

  next_of-keeps :
      (k : Option TapConsumer) (id : String) (tap : MediaTap)
      → ((next_of k id tap).high_water ≡ tap.high_water) × ((next_of k id tap).seq ≡ tap.seq)
  unfolding next_of
  next_of-keeps none id tap = (refl, refl)
  next_of-keeps (some k) id tap = (refl, refl)

  published-Agree :
      (input : TapFrameInput) (tap : MediaTap) (n : ℕ) (s : Option Subscription)
      → Follows tap (n, s)
      → Agree
          (get c (offer_all tap.high_water (frame_of (tap.seq + 1) input) tap.consumers))
          (add_offered (frame_of (n + 1) input) s)
  published-Agree input tap n s h =
      let f = frame_of (n + 1) input in
      let e : offer_all tap.high_water (frame_of (tap.seq + 1) input) tap.consumers
          ≡ offer_all high_water f tap.consumers =
        ap₂ (λ l q. offer_all l (frame_of (q + 1) input) tap.consumers) h.same_limit h.same_seq in
      subst (λ z. Agree (get c z) (add_offered f s)) (sym e)
        (subst (λ z. Agree z (add_offered f s)) (sym (get-offer_all high_water f c tap.consumers))
          (offered-Agree f (get c tap.consumers) s h.agree))

  perform-Follows :
      (call : TapCall) (tap : MediaTap) (o : ℕ × Option Subscription)
      → Follows tap o
      → Follows (perform call tap) (observe c call o)
  unfolding perform observe subscribe unsubscribe publish drain
  perform-Follows (subscribe_as id selector) tap (n, s) h = record {
    same_limit = h.same_limit;
    same_seq = h.same_seq;
    agree = subscribed-Agree id selector tap.consumers s h.agree;
  }
  perform-Follows (publish_frame input) tap (n, s) h = record {
    same_limit = h.same_limit;
    same_seq = ap (λ z. z + 1) h.same_seq;
    agree = published-Agree input tap n s h;
  }
  perform-Follows (unsubscribe_as id) tap (n, s) h = record {
    same_limit = h.same_limit;
    same_seq = h.same_seq;
    agree = unsubscribed-Agree id tap.consumers s h.agree;
  }
  perform-Follows (drain_as id) tap (n, s) h =
      let k = get id tap.consumers in
      let (l, q) = next_of-keeps k id tap in
      record {
        same_limit = l ∙ h.same_limit;
        same_seq = q ∙ h.same_seq;
        agree = drained-Agree id tap k s refl h.agree;
      }

  perform_all-Follows :
      (calls : List TapCall) (tap : MediaTap) (o : ℕ × Option Subscription)
      → Follows tap o
      → Follows (perform_all calls tap) (observe_all c calls o)
  unfolding perform_all observe_all
  perform_all-Follows [] tap o h = h
  perform_all-Follows (call ∷ calls) tap o h =
      perform_all-Follows calls (perform call tap) (observe c call o) (perform-Follows call tap o h)

  Agree-IsAccount :
      (k : Option TapConsumer) (s : Option Subscription)
      → Agree k s
      → (consumer : TapConsumer) → k ≡ some consumer
      → (t : Subscription) × (s ≡ some t) × IsAccount high_water t consumer
  Agree-IsAccount none none h consumer e = absurd (cc)
  Agree-IsAccount none (some s) h consumer e = elim h [ ]
  Agree-IsAccount (some k) none h consumer e = elim h [ ]
  Agree-IsAccount (some k) (some s) h consumer e =
      let same : k ≡ consumer = cc in (s, refl, subst (IsAccount high_water s) same h)

  -- The account of a consumer. Take any calls on a new tap with a limit of at least 1, after which the
  -- consumer is subscribed. The calls alone say which frames were published since it last subscribed and
  -- match its selector. What it has been handed and what waits in its queue are frames of these in their
  -- order, each at most once; the newest of these is the last of them; the frames delivered, dropped and
  -- waiting add up to the number of these; the delivered ones are those handed over; and the queue is not
  -- above the limit.
  pub perform_all-IsAccount :
      (calls : List TapCall) (consumer : TapConsumer)
      → get c (perform_all calls (new_tap high_water)).consumers ≡ some consumer
      → (s : Subscription) × ((observe_all c calls (0, none)).1 ≡ some s)
        × IsAccount high_water s consumer
  perform_all-IsAccount calls consumer e =
      let start : Follows (new_tap high_water) (0, none) = record {
        same_limit = refl;
        same_seq = refl;
        agree = unfold get in tt;
      } in
      let h = perform_all-Follows calls (new_tap high_water) (0, none) start in
      Agree-IsAccount (get c (perform_all calls (new_tap high_water)).consumers)
        (observe_all c calls (0, none)).1 h.agree consumer e
