-- ===== src/Tap/Tests.antt =====
-- Instances of the theorem on the tap.
use wave_realtime_edge.Common.{ℕ, ◌≡◌, refl, false, none, some, List, [], ◌∷◌, arith, get}
use wave_realtime_edge.Room.State.{audio}
use wave_realtime_edge.Tap.Fanout.{TapFrameInput, TapSelector, TapConsumer, new_tap, frame_of}
use wave_realtime_edge.Tap.Account.{
  TapCall, perform_all, Subscription, observe_all, IsAccount, subscribe_as, publish_frame, drain_as,
}
use wave_realtime_edge.Tap.Receipt.{perform_all-IsAccount}

abbrev input : ℕ → TapFrameInput
input ts = record {
  session_id = "session-1";
  track_name = "mic";
  kind = audio;
  participant_id = "alice";
  ts = ts;
  bytes = 1 ∷ 2 ∷ [];
}

abbrev of_alice : TapSelector
of_alice = record { kinds = none; track_names = none; participant_ids = some ("alice" ∷ []) }

-- Two frames against a queue of one; the newer is drained.
abbrev calls : List TapCall
calls =
    subscribe_as "recorder" of_alice
    ∷ publish_frame (input 10)
    ∷ publish_frame (input 20)
    ∷ drain_as "recorder"
    ∷ []

abbrev recorder : TapConsumer
recorder = record {
  selector = of_alice;
  queue = record {
    buf = [];
    waiting = false;
    closed = false;
    delivered_count = 1;
    dropped_count = 1;
    handed = some (frame_of 2 (input 20)) ∷ [];
  };
}

recorder_there : get "recorder" (perform_all calls (new_tap 1)).consumers ≡ some recorder
unfolding perform_all get
recorder_there = refl

perform_all-IsAccount_example :
    (s : Subscription) × ((observe_all "recorder" calls (0, none)).1 ≡ some s)
    × IsAccount 1 s recorder
perform_all-IsAccount_example =
    perform_all-IsAccount 1 (omega arith) "recorder" calls recorder recorder_there
