-- ===== src/Recording/Key.antt =====
-- src/recording-writer.ts: the container of a recording and the key of its object.
use Prim.Native.String.{◌++◌ as append}
use wave_realtime_edge.Common.{
  ℕ, String, str_eq, Bool, ◌&&◌, Option, none, some, List, length, leb, ◌==◌, if◌then◌else◌,
}
use wave_realtime_edge.Media.Bytes.{byte_at}

pub data Container : Type 0 where
  webm : Container
  mp4 : Container
  raw : Container

abbrev pub is_ebml : List ℕ → Bool
is_ebml first =
    leb 4 (length first)
    && byte_at first 0 == 0x1a
    && byte_at first 1 == 0x45
    && byte_at first 2 == 0xdf
    && byte_at first 3 == 0xa3

abbrev pub is_ftyp : List ℕ → Bool
is_ftyp first =
    leb 8 (length first)
    && byte_at first 4 == 0x66
    && byte_at first 5 == 0x74
    && byte_at first 6 == 0x79
    && byte_at first 7 == 0x70

unfoldable pub sniff_webm : List ℕ → Container
unfolding byte_at
sniff_webm first = if is_ebml first then webm else if is_ftyp first then mp4 else raw

unfoldable pub ext_for : Container → String
ext_for webm = "webm"
ext_for mp4 = "mp4"
ext_for raw = "bin"

-- The region is absent, or the empty text, on the path without residency.
unfoldable pub recording_key : String → String → Container → Option String → String
unfolding ext_for
recording_key org session_id container region =
    let ending = append "/recording." (ext_for container) in
    let plain = append org (append "/realtime-recordings/" (append session_id ending)) in
    elim region [
      | none ↦ plain
      | some zone ↦
          if str_eq zone ""
          then plain
          else append org
              (append "/realtime-recordings/" (append zone (append "/" (append session_id ending))))
    ]
