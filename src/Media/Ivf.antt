-- ===== src/Media/Ivf.antt =====
-- src/encoders/ivf.ts: raw VP8 frames out of an IVF container.
pub mod RoundTrip
use wave_realtime_edge.Common.{
  ℕ, zero, suc, ◌+◌, ◌-◌, ◌*◌, ◌/◌, ◌%◌, ◌^◌, ◌≤◌, ◌<◌, List, [], ◌∷◌, ◌++◌, Bool, true, false, not,
  ◌&&◌, ◌||◌, Option, none, some, length, take, drop, ltb, leb, ◌==◌, if◌then◌else◌,
}
use wave_realtime_edge.Media.Bytes.{byte_at, le_value}
use wave_realtime_edge.Media.Double.{to_double}

pub record Vp8Frame : Type 0 where
  pub payload : List ℕ
  pub keyframe : Bool
  pub timestamp : ℕ

abbrev pub ivf_file_header : ℕ
ivf_file_header = 32

abbrev pub ivf_frame_header : ℕ
ivf_frame_header = 12

-- "DKIF", little-endian
abbrev pub dkif : ℕ
dkif = 0x46494b44

-- The four bytes are disjoint in `|`, so it is a sum; `>>> 0` makes it unsigned.
unfoldable pub u32le : List ℕ → ℕ → ℕ
unfolding le_value
u32le buf pos = le_value 4 (drop pos buf)

-- The loop of `u64le` with as many rounds left. The sum is rounded in each round; the product of a byte
-- and a power of 256 is exact. Past the end the source reads undefined, which parseIvf rules out first.
unfoldable pub add_bytes : ℕ → ℕ → ℕ → List ℕ → ℕ
unfolding to_double
add_bytes zero mul v bs = v
add_bytes (suc rounds) mul v [] = v
add_bytes (suc rounds) mul v (b ∷ bs) = add_bytes rounds (mul * 256) (to_double (v + b * mul)) bs

unfoldable pub u64le : List ℕ → ℕ → ℕ
unfolding add_bytes
u64le buf pos = add_bytes 8 1 0 (drop pos buf)

unfoldable pub is_vp8_keyframe : List ℕ → Bool
is_vp8_keyframe [] = false
is_vp8_keyframe (b ∷ bs) = b % 2 == 0

pub record Dimensions : Type 0 where
  pub width : ℕ
  pub height : ℕ

-- `x & 0x3fff` is the remainder by 2 ^ 14.
unfoldable pub vp8_keyframe_dimensions : List ℕ → Option Dimensions
unfolding byte_at is_vp8_keyframe
vp8_keyframe_dimensions payload =
    let width = (byte_at payload 6 + 256 * byte_at payload 7) % 0x4000 in
    let height = (byte_at payload 8 + 256 * byte_at payload 9) % 0x4000 in
    if ltb (length payload) 10
    then none
    else if not (is_vp8_keyframe payload)
    then none
    else if not
        (byte_at payload 3 == 0x9d && byte_at payload 4 == 0x01 && byte_at payload 5 == 0x2a)
    then none
    else if width == 0 || height == 0
    then none
    else some (record { width = width; height = height })

unfoldable pub frame_of : List ℕ → ℕ → Vp8Frame
frame_of payload timestamp = record {
  payload = payload;
  keyframe = is_vp8_keyframe payload;
  timestamp = timestamp;
}

-- The loop of `parseIvf` over the part of the buffer from `pos` on. Each round moves on by the frame's
-- header and size, and the fuel counts rounds.
unfoldable pub frames_from : ℕ → List ℕ → List Vp8Frame
unfolding u32le u64le
frames_from zero rest = []
frames_from (suc fuel) rest =
    let size = u32le rest 0 in
    let later = frames_from fuel (drop (ivf_frame_header + size) rest) in
    if ltb (length rest) ivf_frame_header
    then []
    else if size == 0
    then later
    else if ltb (length rest) (ivf_frame_header + size)
    then []
    else frame_of (take size (drop ivf_frame_header rest)) (u64le rest 4) ∷ later

-- Every round uses up at least the 12 bytes of a header, so as much fuel as there are bytes is enough.
unfoldable pub parse_ivf : List ℕ → List Vp8Frame
unfolding frames_from u32le
parse_ivf buf =
    let header_len = byte_at buf 6 + 256 * byte_at buf 7 in
    let start = if leb ivf_file_header header_len then header_len else ivf_file_header in
    if ltb (length buf) ivf_file_header
    then []
    else if u32le buf 0 == dkif
    then frames_from (suc (length buf)) (drop start buf)
    else []
