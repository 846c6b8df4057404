-- ===== src/Media/Webm/Timeline.antt =====
-- src/muxer/webm.ts: the relative timestamps of the blocks.
use wave_realtime_edge.Common.{
  List, ◌/◌, ◌%◌, length, ◌++◌, ℕ, ◌+◌, ◌-◌, ◌≤◌, ◌<◌, ◌≡◌, refl, sym, ap₂, subst, ◌∙◌, true, false,
  ◌&&◌, Option, some, [], ◌∷◌, arith, ltb,
}
use wave_realtime_edge.Media.Webm.Ebml.{and_then, elem}
use wave_realtime_edge.Media.Webm.Muxer.{
  FrameKind, video_frame, audio_frame, cluster_size_threshold, is_video, EncodedFrame, WebmMuxer,
  rel_word, simple_block, needs_new_cluster, base_of, append_block, clamp, max_of, place_frame,
}

-- The open cluster does not begin after the last frame.
abbrev pub IsOrdered : WebmMuxer → Type 0
IsOrdered m = base_of m.cluster_base_ms ≤ m.last_ts

-- What a frame finds in the muxer once it is placed: the clock reads its timestamp, and the open cluster
-- begins at most 32760 ms before it.
abbrev pub IsNear : ℕ → WebmMuxer → Type 0
IsNear ts m =
    (m.last_ts ≡ ts) × (base_of m.cluster_base_ms ≤ ts) × (ts ≤ base_of m.cluster_base_ms + 32760)

-- Before the start of the cluster the word is that of a negative number.
rel_word-late :
    (ts base : ℕ) → ts < base → base ≤ ts + 32768 → rel_word ts base ≡ 65536 - (base - ts)
unfolding rel_word
rel_word-late ts base h k = omega (arith, h, k)

stays_late :
    (frame : EncodedFrame) (ts base : ℕ) (m : WebmMuxer)
    → m.cluster_base_ms ≡ some base
    → is_video frame.kind && frame.keyframe ≡ false
    → m.cluster_bytes < cluster_size_threshold
    → ts < base
    → needs_new_cluster frame ts m ≡ false
unfolding needs_new_cluster
stays_late frame ts base m o plain room late = rw (o, plain) (ground (arith, room, late))

place_stays :
    (frame : EncodedFrame) (m : WebmMuxer)
    → let ts = frame.timestamp_ms in
      let timed : WebmMuxer = record m { last_ts = max_of m.last_ts ts } in
      needs_new_cluster (clamp frame m.last_ts) ts timed ≡ false
      → place_frame frame m ≡ append_block (clamp frame m.last_ts) ts timed
unfolding place_frame
place_stays frame m stays = rw stays refl

clamp_late :
    (frame : EncodedFrame) (last : ℕ)
    → frame.timestamp_ms < last
    → clamp frame last ≡ record frame { timestamp_ms = last }
clamp_late frame last h =
    let late : ltb frame.timestamp_ms last ≡ true = ground (arith, h) in rw late refl

max_of-earlier : (a b : ℕ) → b < a → max_of a b ≡ a
max_of-earlier a b h = ground (arith, h)

-- What a SimpleBlock of a frame that is no keyframe of video should hold: the track number, the two bytes of
-- the relative timestamp, the flags (every sound can be decoded alone) and the data.
abbrev pub content_of : FrameKind → ℕ → List ℕ → List ℕ
content_of video_frame word content = 0x81 ∷ word / 256 ∷ word % 256 ∷ 0x00 ∷ content
content_of audio_frame word content = 0x82 ∷ word / 256 ∷ word % 256 ∷ 0x80 ∷ content

simple_block-plain :
    (frame : EncodedFrame) (word : ℕ)
    → is_video frame.kind && frame.keyframe ≡ false
    → simple_block frame word ≡ elem (0xa3 ∷ []) (content_of frame.kind word frame.data_bytes)
unfolding simple_block
simple_block-plain frame word plain = ground arith

-- The block goes into the open cluster, with the word that its timestamp gives.
append_block-plain :
    (frame : EncodedFrame) (ts base word : ℕ) (m : WebmMuxer)
    → m.cluster_base_ms ≡ some base
    → is_video frame.kind && frame.keyframe ≡ false
    → rel_word ts base ≡ word
    → append_block frame ts m
      ≡ and_then (elem (0xa3 ∷ []) (content_of frame.kind word frame.data_bytes)) (λ block.
        some
          (record m { out = m.out ++ block ∷ []; cluster_bytes = m.cluster_bytes + length block }))
unfolding append_block
append_block-plain frame ts base word m o plain w =
    rw (o, w, simple_block-plain frame word plain) refl

-- A frame that is earlier than the start of the open cluster, by at most 32768 ms, and starts no cluster of
-- its own leaves the clock as it is, and one SimpleBlock is added to that cluster (or the muxer fails where
-- the block is too long to be written): with the frame's track, flags and data, and as its relative
-- timestamp the signed 16-bit number as far below zero as the frame's own timestamp is before the cluster.
pub place_frame-late :
    (frame : EncodedFrame) (m : WebmMuxer) (base : ℕ)
    → m.cluster_base_ms ≡ some base
    → is_video frame.kind && frame.keyframe ≡ false
    → m.cluster_bytes < cluster_size_threshold
    → frame.timestamp_ms < base
    → base ≤ frame.timestamp_ms + 32768
    → base ≤ m.last_ts
    → let word = 65536 - (base - frame.timestamp_ms) in
      place_frame frame m
      ≡ and_then (elem (0xa3 ∷ []) (content_of frame.kind word frame.data_bytes)) (λ block.
        some
          (record m { out = m.out ++ block ∷ []; cluster_bytes = m.cluster_bytes + length block }))
place_frame-late frame m base o plain room late near order =
    let ts = frame.timestamp_ms in
    let held : EncodedFrame = record frame { timestamp_ms = m.last_ts } in
    let timed : WebmMuxer = record m { last_ts = max_of m.last_ts ts } in
    let clamped : clamp frame m.last_ts ≡ held = clamp_late frame m.last_ts (omega arith) in
    let clock : max_of m.last_ts ts ≡ m.last_ts = max_of-earlier _ _ (omega arith) in
    let stays : needs_new_cluster (clamp frame m.last_ts) ts timed ≡ false =
      subst (λ f. needs_new_cluster f ts timed ≡ false) (sym clamped)
        (stays_late held ts base timed o plain room late) in
    place_stays frame m stays
    ∙ ap₂ (λ f n. append_block f ts (record m { last_ts = n })) clamped clock
    ∙ append_block-plain held ts base _ m o plain (rel_word-late ts base late near)
