-- ===== src/Media/Tests.antt =====
-- The theorems on the media formats at concrete bytes.
use wave_realtime_edge.Common.{◌^◌, ◌≡◌, refl, true, false, some, List, [], ◌∷◌, arith}
use wave_realtime_edge.Media.Ivf.{add_bytes, u64le, parse_ivf}
use wave_realtime_edge.Media.Ivf.RoundTrip.{Raw, Fits, expected, ivf_file, parse_ivf-ivf_file}
use wave_realtime_edge.Media.Webm.Ebml.{be_bytes, set_marker, vint_from, vint, elem}
use wave_realtime_edge.Media.Webm.Muxer.{
  default_options, EncodedFrame, WebmMuxer, place_frame, audio_frame,
}
use wave_realtime_edge.Media.Webm.Timeline.{place_frame-late}

abbrev two_frames : List Raw
two_frames =
    record { payload = 16 ∷ 1 ∷ 2 ∷ []; timestamp = 0 }
    ∷ record { payload = 17 ∷ []; timestamp = 40 }
    ∷ []

parse_ivf-ivf_file_example :
    parse_ivf (ivf_file 640 480 30 1 two_frames (9 ∷ [])) ≡ expected two_frames
unfolding Fits
parse_ivf-ivf_file_example =
    parse_ivf-ivf_file 640 480 30 1 two_frames (9 ∷ [])
      ((omega arith, omega arith), ((omega arith, omega arith), tt)) (omega arith)

-- A timestamp of 2 ^ 53 + 1 is rounded.
u64le_rounds : u64le (1 ∷ 0 ∷ 0 ∷ 0 ∷ 0 ∷ 0 ∷ 32 ∷ 0 ∷ []) 0 ≡ 2 ^ 53
unfolding u64le add_bytes
u64le_rounds = refl

-- A muxer whose cluster begins at 1000 ms.
abbrev running : WebmMuxer
running = record {
  opts = default_options;
  out = [];
  header_written = true;
  cluster_base_ms = some 1000;
  cluster_bytes = 20;
  last_ts = 1020;
}

abbrev sound : EncodedFrame
sound = record {
  kind = audio_frame;
  data_bytes = 1 ∷ 2 ∷ [];
  timestamp_ms = 1040;
  keyframe = false;
}

abbrev sounding : WebmMuxer
sounding = record running {
  out = (0xa3 ∷ 0x86 ∷ 0x82 ∷ 0 ∷ 40 ∷ 0x80 ∷ 1 ∷ 2 ∷ []) ∷ [];
  cluster_bytes = 28;
  last_ts = 1040;
}

-- A frame from before the cluster.
abbrev early : EncodedFrame
early = record { kind = audio_frame; data_bytes = 1 ∷ []; timestamp_ms = 990; keyframe = false }

place_frame-late_example :
    place_frame early running
    ≡ some (record running {
      out = (0xa3 ∷ 0x85 ∷ 0x82 ∷ 255 ∷ 246 ∷ 0x80 ∷ 1 ∷ []) ∷ [];
      cluster_bytes = 27;
    })
unfolding elem vint vint_from be_bytes set_marker
place_frame-late_example =
    place_frame-late early running 1000 refl refl (omega arith) (omega arith) (omega arith)
      (omega arith)
