-- ===== src/Media/Webm/Header.antt =====
-- src/muxer/webm.ts: the head of the file. The platform's TextEncoder and DataView.setFloat64 are
-- parameters.
use wave_realtime_edge.Common.{ℕ, String, true, Option, some, List, [], ◌∷◌, if◌then◌else◌}
use wave_realtime_edge.Media.Webm.Ebml.{and_then, elem, master, uint_elem, u32be, unknown_size}
use wave_realtime_edge.Media.Webm.Muxer.{
  AudioCodec, is_pcm, MuxerOptions, EncodedFrame, WebmMuxer, push, place_frame,
}

module _ (encode : String → List ℕ) (float64 : ℕ → List ℕ) where
  unfoldable pub str_elem : List ℕ → String → Option (List ℕ)
  unfolding elem
  str_elem id value = elem id (encode value)

  unfoldable pub float_elem : List ℕ → ℕ → Option (List ℕ)
  unfolding elem
  float_elem id value = elem id (float64 value)

  unfoldable pub ebml_head : AudioCodec → Option (List ℕ)
  unfolding master uint_elem str_elem
  ebml_head codec = master (0x1a ∷ 0x45 ∷ 0xdf ∷ 0xa3 ∷ []) (
      uint_elem (0x42 ∷ 0x86 ∷ []) 1
      ∷ uint_elem (0x42 ∷ 0xf7 ∷ []) 1
      ∷ uint_elem (0x42 ∷ 0xf2 ∷ []) 4
      ∷ uint_elem (0x42 ∷ 0xf3 ∷ []) 8
      ∷ str_elem (0x42 ∷ 0x82 ∷ []) (if is_pcm codec then "matroska" else "webm")
      ∷ uint_elem (0x42 ∷ 0x87 ∷ []) (if is_pcm codec then 4 else 2)
      ∷ uint_elem (0x42 ∷ 0x85 ∷ []) 2
      ∷ [])

  unfoldable pub info : String → Option (List ℕ)
  unfolding master str_elem u32be elem
  info writing_app = master (0x15 ∷ 0x49 ∷ 0xa9 ∷ 0x66 ∷ []) (
      elem (0x2a ∷ 0xd7 ∷ 0xb1 ∷ []) (u32be 1000000)
      ∷ str_elem (0x4d ∷ 0x80 ∷ []) "wave-realtime-edge"
      ∷ str_elem (0x57 ∷ 0x41 ∷ []) writing_app
      ∷ [])

  unfoldable pub video_track : MuxerOptions → Option (List ℕ)
  unfolding master uint_elem str_elem
  video_track opts = master (0xae ∷ []) (
      uint_elem (0xd7 ∷ []) 1
      ∷ uint_elem (0x73 ∷ 0xc5 ∷ []) 1
      ∷ uint_elem (0x83 ∷ []) 1
      ∷ str_elem (0x86 ∷ []) "V_VP8"
      ∷ master (0xe0 ∷ [])
          (uint_elem (0xb0 ∷ []) opts.width ∷ uint_elem (0xba ∷ []) opts.height ∷ [])
      ∷ [])

  unfoldable pub audio_track : MuxerOptions → Option (List ℕ)
  unfolding master uint_elem str_elem float_elem
  audio_track opts =
      let depth =
        if is_pcm opts.audio_codec then uint_elem (0x62 ∷ 0x64 ∷ []) opts.bit_depth ∷ [] else [] in
      master (0xae ∷ []) (
        uint_elem (0xd7 ∷ []) 2
        ∷ uint_elem (0x73 ∷ 0xc5 ∷ []) 2
        ∷ uint_elem (0x83 ∷ []) 2
        ∷ str_elem (0x86 ∷ []) (if is_pcm opts.audio_codec then "A_PCM/INT/LIT" else "A_OPUS")
        ∷ master (0xe1 ∷ [])
            (float_elem (0xb5 ∷ []) opts.sample_rate ∷ uint_elem (0x9f ∷ []) opts.channels ∷ depth)
        ∷ [])

  -- The four parts of `header`, in order.
  unfoldable pub header_parts : MuxerOptions → List (Option (List ℕ))
  unfolding ebml_head info video_track audio_track master
  header_parts opts =
      ebml_head opts.audio_codec
      ∷ some (0x18 ∷ 0x53 ∷ 0x80 ∷ 0x67 ∷ unknown_size)
      ∷ info opts.writing_app
      ∷ master (0x16 ∷ 0x54 ∷ 0xae ∷ 0x6b ∷ []) (video_track opts ∷ audio_track opts ∷ [])
      ∷ []

  unfoldable pub push_all : List (Option (List ℕ)) → WebmMuxer → Option WebmMuxer
  push_all [] m = some m
  push_all (p ∷ ps) m = and_then p (λ bytes. push_all ps (push bytes m))

  unfoldable pub header : WebmMuxer → Option WebmMuxer
  unfolding header_parts push_all
  header m =
      if m.header_written
      then some m
      else push_all (header_parts m.opts) (record m { header_written = true })

  unfoldable pub add_frame : EncodedFrame → WebmMuxer → Option WebmMuxer
  unfolding header place_frame
  add_frame frame m = and_then (header m) (place_frame frame)
