-- ===== src/Tap/Account.antt =====
-- src/media-tap.ts: what a consumer gets of the frames that are published.
use wave_realtime_edge.Common.{
  ℕ, ◌+◌, ◌≤◌, String, str_eq, ◌≡◌, refl, ap, ◌⊎◌, inl, inr, false, Option, none, some, List, [],
  ◌∷◌, ◌++◌, length, if◌then◌else◌,
}
use wave_realtime_edge.Tap.Queue.{TapFrame, BoundedFrameQueue}
use wave_realtime_edge.Tap.Fanout.{
  TapFrameInput, TapSelector, selector_matches, TapConsumer, MediaTap, subscribe, frame_of, publish,
  unsubscribe, drain,
}
use wave_realtime_edge.Tap.Order.{IsSublist}

-- The operations on a tap.
pub data TapCall : Type 0 where
  subscribe_as : String → TapSelector → TapCall
  publish_frame : TapFrameInput → TapCall
  unsubscribe_as : String → TapCall
  drain_as : String → TapCall

unfoldable pub perform : TapCall → MediaTap → MediaTap
unfolding subscribe publish unsubscribe drain
perform (subscribe_as id selector) tap = subscribe id selector tap
perform (publish_frame input) tap = (publish input tap).1
perform (unsubscribe_as id) tap = unsubscribe id tap
perform (drain_as id) tap = drain id tap

unfoldable pub perform_all : List TapCall → MediaTap → MediaTap
unfolding perform
perform_all [] tap = tap
perform_all (call ∷ calls) tap = perform_all calls (perform call tap)

-- What the calls say of one consumer, without any queue: its selector, and the frames that were published
-- since it subscribed and that the selector matches.
pub record Subscription : Type 0 where
  pub selector : TapSelector
  pub offered : List TapFrame

unfoldable pub add_offered : TapFrame → Option Subscription → Option Subscription
add_offered frame none = none
add_offered frame (some s) =
    if selector_matches s.selector frame
    then some (record s { offered = s.offered ++ frame ∷ [] })
    else some s

-- The number of frames published, and the subscription of the consumer.
unfoldable pub observe : String → TapCall → ℕ × Option Subscription → ℕ × Option Subscription
unfolding add_offered
observe c (subscribe_as id selector) (n, s) =
    (n, if str_eq id c then some (record { selector = selector; offered = [] }) else s)
observe c (publish_frame input) (n, s) = (n + 1, add_offered (frame_of (n + 1) input) s)
observe c (unsubscribe_as id) (n, s) = (n, if str_eq id c then none else s)
observe c (drain_as id) (n, s) = (n, s)

unfoldable pub observe_all :
    String → List TapCall → ℕ × Option Subscription → ℕ × Option Subscription
unfolding observe
observe_all c [] o = o
observe_all c (call ∷ calls) o = observe_all c calls (observe c call o)

-- The frames among what the calls of next were resolved with.
unfoldable pub frames : List (Option TapFrame) → List TapFrame
frames [] = []
frames (none ∷ fs) = frames fs
frames (some f ∷ fs) = f ∷ frames fs

-- What has been handed over and what is in the queue, oldest first.
abbrev pub kept_of : BoundedFrameQueue → List TapFrame
kept_of q = frames q.handed ++ q.buf

-- The newest of `ys`, if there is one, is the last of `xs`.
abbrev pub HasNewest : List TapFrame → List TapFrame → Type 0
HasNewest xs ys =
    (ys ≡ [])
    ⊎ ((f : TapFrame) × (xs' : List TapFrame) × (ys' : List TapFrame) × (xs ≡ xs' ++ f ∷ [])
        × (ys ≡ ys' ++ f ∷ []))

pub record IsAccount (high_water : ℕ) (s : Subscription) (c : TapConsumer) : Type 0 where
  pub same_selector : c.selector ≡ s.selector
  pub in_order : IsSublist (kept_of c.queue) s.offered
  pub newest : HasNewest (kept_of c.queue) s.offered
  pub counted :
      c.queue.delivered_count + c.queue.dropped_count + length c.queue.buf ≡ length s.offered
  pub delivered_lem : c.queue.delivered_count ≡ length (frames c.queue.handed)
  pub bounded : length c.queue.buf ≤ high_water
  pub is_open : c.queue.closed ≡ false
  pub parked : (c.queue.waiting ≡ false) ⊎ (c.queue.buf ≡ [])

pub frames-push :
    (fs : List (Option TapFrame)) (f : TapFrame) → frames (fs ++ some f ∷ []) ≡ frames fs ++ f ∷ []
unfolding frames
frames-push [] f = refl
frames-push (none ∷ fs) f = frames-push fs f
frames-push (some g ∷ fs) f = ap (◌∷◌ g) (frames-push fs f)

abbrev pub pushed : TapFrame → Subscription → Subscription
pushed f s = record s { offered = s.offered ++ f ∷ [] }

abbrev pub with_queue : TapConsumer → BoundedFrameQueue → TapConsumer
with_queue c q = record c { queue = q }

pub newest_of : (xs ys : List TapFrame) (f : TapFrame) → HasNewest (xs ++ f ∷ []) (ys ++ f ∷ [])
newest_of xs ys f = inr (f, xs, ys, refl, refl)

pub List-cases :
    (xs : List TapFrame) → (xs ≡ []) ⊎ ((x : TapFrame) × (ys : List TapFrame) × (xs ≡ x ∷ ys))
List-cases [] = inl refl
List-cases (x ∷ xs) = inr (x, xs, refl)
