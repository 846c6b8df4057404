-- ===== src/Media/Webm/Muxer.antt =====
-- src/muxer/webm.ts: the state of WebmMuxer, and the frames that it appends. Timestamps are natural
-- numbers, as `Math.max(0, Math.floor(_))` makes them.
use wave_realtime_edge.Common.{
  ℕ, ◌+◌, ◌-◌, ◌*◌, ◌/◌, ◌%◌, String, Bool, true, false, ◌&&◌, ◌||◌, Option, none, some, List, [],
  ◌∷◌, ◌++◌, length, ltb, leb, if◌then◌else◌,
}
use wave_realtime_edge.Media.Webm.Ebml.{and_then, elem, uint_bytes, unknown_size}

abbrev pub cluster_size_threshold : ℕ
cluster_size_threshold = 4 * 1024 * 1024

abbrev pub max_rel_timestamp : ℕ
max_rel_timestamp = 32760

pub data AudioCodec : Type 0 where
  opus : AudioCodec
  pcm : AudioCodec

abbrev pub is_pcm : AudioCodec → Bool
is_pcm opus = false
is_pcm pcm = true

pub record MuxerOptions : Type 0 where
  pub width : ℕ
  pub height : ℕ
  pub sample_rate : ℕ
  pub channels : ℕ
  pub audio_codec : AudioCodec
  pub bit_depth : ℕ
  pub writing_app : String

abbrev pub default_options : MuxerOptions
default_options = record {
  width = 1280;
  height = 720;
  sample_rate = 48000;
  channels = 2;
  audio_codec = opus;
  bit_depth = 16;
  writing_app = "wave-realtime-edge";
}

pub data FrameKind : Type 0 where
  video_frame : FrameKind
  audio_frame : FrameKind

abbrev pub is_video : FrameKind → Bool
is_video video_frame = true
is_video audio_frame = false

pub record EncodedFrame : Type 0 where
  pub kind : FrameKind
  pub data_bytes : List ℕ
  pub timestamp_ms : ℕ
  pub keyframe : Bool

pub record WebmMuxer : Type 0 where
  pub opts : MuxerOptions
  pub out : List (List ℕ)
  pub header_written : Bool
  pub cluster_base_ms : Option ℕ
  pub cluster_bytes : ℕ
  pub last_ts : ℕ

unfoldable pub new_muxer : MuxerOptions → WebmMuxer
new_muxer opts = record {
  opts = opts;
  out = [];
  header_written = false;
  cluster_base_ms = none;
  cluster_bytes = 0;
  last_ts = 0;
}

-- A dimension that is not positive keeps the value that is there.
abbrev positive_or : ℕ → ℕ → ℕ
positive_or new old = if ltb 0 new then new else old

unfoldable pub set_video_dimensions : ℕ → ℕ → WebmMuxer → WebmMuxer
set_video_dimensions width height m = if m.header_written then m else record m {
  opts = record m.opts {
    width = positive_or width m.opts.width;
    height = positive_or height m.opts.height;
  };
}

abbrev pub push : List ℕ → WebmMuxer → WebmMuxer
push bytes m = record m { out = m.out ++ bytes ∷ [] }

abbrev pub cluster_open : List ℕ
cluster_open = 0x1f ∷ 0x43 ∷ 0xb6 ∷ 0x75 ∷ unknown_size

-- The muxer with a cluster opened, whose timestamp element is given.
abbrev pub opened : ℕ → WebmMuxer → List ℕ → WebmMuxer
opened base_ms m timestamp = record (push timestamp (push cluster_open m)) {
  cluster_base_ms = some base_ms;
  cluster_bytes = length cluster_open + length timestamp;
}

unfoldable pub open_cluster : ℕ → WebmMuxer → Option WebmMuxer
unfolding elem uint_bytes
open_cluster base_ms m =
    and_then (elem (0xe7 ∷ []) (uint_bytes base_ms))
      (λ timestamp. some (opened base_ms m timestamp))

-- The signed 16-bit relative timestamp, as the number of its two bytes.
unfoldable pub rel_word : ℕ → ℕ → ℕ
rel_word ts base = (ts + (65536 - base % 65536)) % 65536

abbrev pub flags : EncodedFrame → ℕ
flags frame = if is_video frame.kind then if frame.keyframe then 0x80 else 0x00 else 0x80

-- The track number's VINT is one byte, 0x80 and the number.
unfoldable pub simple_block : EncodedFrame → ℕ → Option (List ℕ)
unfolding elem
simple_block frame rel =
    let track = if is_video frame.kind then 0x81 else 0x82 in
    elem (0xa3 ∷ []) (track ∷ rel / 256 ∷ rel % 256 ∷ flags frame ∷ frame.data_bytes)

-- `this.clusterBaseMs === null || … > MAX_REL_TIMESTAMP`
unfoldable pub needs_new_cluster : EncodedFrame → ℕ → WebmMuxer → Bool
needs_new_cluster frame ts m = elim m.cluster_base_ms [
  | none ↦ true
  | some base ↦
      is_video frame.kind && frame.keyframe
      || leb cluster_size_threshold m.cluster_bytes
      || ltb (base + max_rel_timestamp) ts
]

abbrev pub base_of : Option ℕ → ℕ
base_of none = 0
base_of (some base) = base

abbrev pub appended : WebmMuxer → List ℕ → WebmMuxer
appended m block = record (push block m) { cluster_bytes = m.cluster_bytes + length block }

-- The block goes into the open cluster.
unfoldable pub append_block : EncodedFrame → ℕ → WebmMuxer → Option WebmMuxer
unfolding simple_block rel_word
append_block frame ts m =
    and_then (simple_block frame (rel_word ts (base_of m.cluster_base_ms)))
      (λ block. some (appended m block))

-- The muxer's clock and the frame, which is changed in place when it is late.
abbrev pub clamp : EncodedFrame → ℕ → EncodedFrame
clamp frame last_ts =
    if ltb frame.timestamp_ms last_ts then record frame { timestamp_ms = last_ts } else frame

abbrev pub max_of : ℕ → ℕ → ℕ
max_of a b = if ltb a b then b else a

-- `addFrame` below the write of the header.
unfoldable pub place_frame : EncodedFrame → WebmMuxer → Option WebmMuxer
unfolding needs_new_cluster open_cluster append_block
place_frame frame m =
    let ts = frame.timestamp_ms in
    let timed = record m { last_ts = max_of m.last_ts ts } in
    let late = clamp frame m.last_ts in
    if needs_new_cluster late ts timed
    then and_then (open_cluster ts timed) (append_block late ts)
    else append_block late ts timed

unfoldable pub join : List (List ℕ) → List ℕ
join [] = []
join (p ∷ ps) = p ++ join ps

-- `drain`: the bytes, and the muxer without them.
unfoldable pub drain : WebmMuxer → WebmMuxer × List ℕ
unfolding join
drain m = (record m { out = [] }, join m.out)

unfoldable pub pending : WebmMuxer → ℕ
unfolding join
pending m = length (join m.out)
