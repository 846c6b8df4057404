-- ===== src/Media/Ivf/RoundTrip.antt =====
-- parseIvf against a writer of the IVF format, as the comment at the head of ivf.ts describes it.
use wave_realtime_edge.Common.{
  ℕ, zero, suc, ◌+◌, ◌*◌, ◌^◌, ◌≤◌, ◌<◌, List, [], ◌∷◌, ◌++◌, false, length, take, drop, ltb, ◌==◌,
  if◌then◌else◌, ◌≡◌, refl, arith, length-append, append_assoc, All, ap, ◌∙◌,
}
use wave_realtime_edge.Media.Bytes.{
  le_value, drop_add, byte_at, le_bytes, take-append, drop-append, length-drop, le_value-le_bytes,
}
use native.Mathlib.Nat.{mul-add, mul_comm, mul_assoc}
use wave_realtime_edge.Media.Double.{to_double_exact}
use wave_realtime_edge.Media.Ivf.{
  Vp8Frame, u32le, add_bytes, u64le, frame_of, frames_from, parse_ivf, dkif,
}

-- Fuel beyond the length of the rest makes no difference.
frames_from_fuel :
    (f g : ℕ) (rest : List ℕ)
    → length rest < f
    → length rest < g
    → frames_from f rest ≡ frames_from g rest
unfolding frames_from
frames_from_fuel zero g rest h k = absurd (omega arith)
frames_from_fuel (suc f) zero rest h k = absurd (omega arith)
frames_from_fuel (suc f) (suc g) rest h k = ground (
  arith,
  length-drop (12 + u32le rest 0) rest,
  frames_from_fuel f g (drop (12 + u32le rest 0) rest),
)

-- A frame as a writer of the container has it.
pub record Raw : Type 0 where
  pub payload : List ℕ
  pub timestamp : ℕ

unfoldable pub frame_bytes : Raw → List ℕ
unfolding le_bytes
frame_bytes f = le_bytes 4 (length f.payload) ++ le_bytes 8 f.timestamp ++ f.payload

unfoldable pub frames_bytes : List Raw → List ℕ
unfolding frame_bytes
frames_bytes [] = []
frames_bytes (f ∷ fs) = frame_bytes f ++ frames_bytes fs

-- The field of the size is wide enough for it, and the timestamp is a safe integer of JavaScript.
unfoldable pub Fits : Raw → Type 0
Fits f = (length f.payload < 256 ^ 4) × (f.timestamp < 2 ^ 53)

-- What a reader should find: a frame without bytes is passed over.
unfoldable pub expected : List Raw → List Vp8Frame
unfolding frame_of
expected [] = []
expected (f ∷ fs) =
    let later = expected fs in
    if length f.payload == 0 then later else frame_of f.payload f.timestamp ∷ later

u32le-frame_bytes :
    (f : Raw) (rest : List ℕ) → Fits f → u32le (frame_bytes f ++ rest) 0 ≡ length f.payload
unfolding u32le frame_bytes Fits
u32le-frame_bytes f rest h =
    le_value-le_bytes 4 (length f.payload) ((le_bytes 8 f.timestamp ++ f.payload) ++ rest) h.0

-- No sum is rounded as long as the whole stays below 2 ^ 53.
add_bytes_exact :
    (n mul v : ℕ) (bs : List ℕ)
    → v + mul * le_value n bs < 2 ^ 53
    → add_bytes n mul v bs ≡ v + mul * le_value n bs
unfolding add_bytes le_value
add_bytes_exact zero mul v bs h = omega arith
add_bytes_exact (suc n) mul v [] h = omega arith
add_bytes_exact (suc n) mul v (b ∷ bs) h =
    let rest = le_value n bs in
    let split = mul-add mul b (256 * rest) in
    let swap = mul_comm mul b in
    let group = mul_assoc mul 256 rest in
    let small : v + b * mul < 2 ^ 53 = omega (arith, h, split, swap) in
    let fits : (v + b * mul) + mul * 256 * rest < 2 ^ 53 = omega (arith, h, split, swap, group) in
    let later = add_bytes_exact n (mul * 256) (v + b * mul) bs fits in
    rw (to_double_exact (v + b * mul) small) (omega (arith, later, split, swap, group))

u64le-frame_bytes :
    (f : Raw) (rest : List ℕ) → Fits f → u64le (frame_bytes f ++ rest) 4 ≡ f.timestamp
unfolding u64le frame_bytes Fits
u64le-frame_bytes f rest h =
    let bytes = le_bytes 8 f.timestamp ++ f.payload ++ rest in
    let whole : le_value 8 bytes ≡ f.timestamp =
      le_value-le_bytes 8 f.timestamp (f.payload ++ rest) (omega (arith, h.1)) in
    let exact = add_bytes_exact 8 1 0 bytes (omega (arith, whole, h.1)) in
    exact ∙ omega (arith, whole)

length-frame_bytes :
    (f : Raw) (rest : List ℕ) → length (frame_bytes f ++ rest) ≡ 12 + length f.payload + length rest
unfolding frame_bytes
length-frame_bytes f rest = omega (arith, length-append f.payload rest)

drop-frame_bytes :
    (f : Raw) (rest : List ℕ) → drop (12 + length f.payload) (frame_bytes f ++ rest) ≡ rest
unfolding frame_bytes
drop-frame_bytes f rest =
    drop_add 12 (length f.payload) (frame_bytes f ++ rest) ∙ drop-append f.payload rest

take-frame_bytes :
    (f : Raw) (rest : List ℕ)
    → take (length f.payload) (drop 12 (frame_bytes f ++ rest)) ≡ f.payload
unfolding frame_bytes
take-frame_bytes f rest = take-append f.payload rest

-- One round of the loop on a frame that a writer wrote.
frames_from-frame_bytes :
    (fuel : ℕ) (f : Raw) (rest : List ℕ)
    → Fits f
    → frames_from (suc fuel) (frame_bytes f ++ rest) ≡ (
        if length f.payload == 0
        then frames_from fuel rest
        else frame_of f.payload f.timestamp ∷ frames_from fuel rest)
unfolding frames_from
frames_from-frame_bytes fuel f rest h =
    rw
      (
        u32le-frame_bytes f rest h,
        u64le-frame_bytes f rest h,
        drop-frame_bytes f rest,
        take-frame_bytes f rest,
        length-frame_bytes f rest,
      )
      (ground arith)

frames_from_short : (fuel : ℕ) (rest : List ℕ) → length rest < 12 → frames_from fuel rest ≡ []
unfolding frames_from
frames_from_short zero rest h = refl
frames_from_short (suc fuel) rest h = ground arith

frames_from-frames_bytes :
    (fuel : ℕ) (fs : List Raw) (tail : List ℕ)
    → All Fits fs
    → length tail < 12
    → length (frames_bytes fs ++ tail) < fuel
    → frames_from fuel (frames_bytes fs ++ tail) ≡ expected fs
unfolding frames_bytes expected
frames_from-frames_bytes zero fs tail h short k = absurd (omega arith)
frames_from-frames_bytes (suc fuel) [] tail h short k = frames_from_short (suc fuel) tail short
frames_from-frames_bytes (suc fuel) (f ∷ fs) tail (h, hs) short k =
    let rest = frames_bytes fs ++ tail in
    let assoc = append_assoc (frame_bytes f) (frames_bytes fs) tail in
    let size = length-frame_bytes f rest in
    let fit = ap length assoc ∙ size in
    let later = frames_from-frames_bytes fuel fs tail hs short (omega (arith, k, fit)) in
    rw (assoc, frames_from-frame_bytes fuel f rest h, later) refl

-- The 32 bytes at the head of a file: the signature, the version, the header's length, the codec, the
-- size of the picture, the rate, the number of frames and an unused word.
unfoldable pub ivf_header : (width height rate scale count : ℕ) → List ℕ
unfolding le_bytes
ivf_header width height rate scale count =
    le_bytes 4 dkif
    ++ le_bytes 2 0
    ++ le_bytes 2 32
    ++ le_bytes 4 0x30385056
    ++ le_bytes 2 width
    ++ le_bytes 2 height
    ++ le_bytes 4 rate
    ++ le_bytes 4 scale
    ++ le_bytes 4 count
    ++ le_bytes 4 0

unfoldable pub ivf_file : (width height rate scale : ℕ) → List Raw → List ℕ → List ℕ
unfolding ivf_header frames_bytes
ivf_file width height rate scale fs tail =
    ivf_header width height rate scale (length fs) ++ (frames_bytes fs ++ tail)

le→ltb : (a b : ℕ) → a ≤ b → ltb b a ≡ false
le→ltb a b h = ground arith

-- A buffer that starts with a header of 32 bytes is read from the 32nd byte on.
parse_ivf_of_header :
    (buf : List ℕ)
    → 32 ≤ length buf
    → u32le buf 0 ≡ dkif
    → byte_at buf 6 + 256 * byte_at buf 7 ≡ 32
    → parse_ivf buf ≡ frames_from (suc (length buf)) (drop 32 buf)
unfolding parse_ivf
parse_ivf_of_header buf long sig len = let whole = le→ltb _ _ long in rw (whole, sig, len) refl

-- Reading an IVF file gives exactly the frames that were written, in order and with their timestamps, less those without bytes, where every frame's size is below 2 ^ 32 and its timestamp below 2 ^ 53, so that it is exact as a number of JavaScript; fewer than 12 bytes after the last frame do no harm.
pub parse_ivf-ivf_file :
    (width height rate scale : ℕ) (fs : List Raw) (tail : List ℕ)
    → All Fits fs
    → length tail < 12
    → parse_ivf (ivf_file width height rate scale fs tail) ≡ expected fs
unfolding ivf_file u32le byte_at
parse_ivf-ivf_file width height rate scale fs tail h short =
    let file = ivf_file width height rate scale fs tail in
    let long : 32 ≤ length file = omega arith in
    parse_ivf_of_header file long refl refl
    ∙ frames_from-frames_bytes (suc (length file)) fs tail h short (omega arith)
