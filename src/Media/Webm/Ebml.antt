-- ===== src/Media/Webm/Ebml.antt =====
-- src/muxer/webm.ts: EBML elements. A step that can throw the RangeError of `vint` returns an Option.
use wave_realtime_edge.Common.{
  ℕ, zero, suc, ◌+◌, ◌-◌, ◌*◌, ◌/◌, ◌%◌, ◌^◌, Option, none, some, List, [], ◌∷◌, ◌++◌, length, ltb,
  ◌==◌, if◌then◌else◌,
}

-- The `n` low bytes of a number, the highest first.
unfoldable pub be_bytes : ℕ → ℕ → List ℕ
be_bytes zero v = []
be_bytes (suc n) v = (v / 256 ^ n) % 256 ∷ be_bytes n v

-- `out[0] |= 0x80 >> (w - 1)`, for a first byte below that bit.
unfoldable pub set_marker : ℕ → List ℕ → List ℕ
set_marker w [] = []
set_marker w (b ∷ bs) = (b + 2 ^ (8 - w)) ∷ bs

-- The loop over the widths `w` from `9 - left` on.
unfoldable pub vint_from : ℕ → ℕ → Option (List ℕ)
unfolding be_bytes set_marker
vint_from zero value = none
vint_from (suc left) value =
    let w = 8 - left in
    let wider = vint_from left value in
    if ltb value (2 ^ (7 * w) - 1) then some (set_marker w (be_bytes w value)) else wider

unfoldable pub vint : ℕ → Option (List ℕ)
unfolding vint_from
vint value = vint_from 8 value

abbrev pub and_then {ℓ κ} : {A : Type ℓ} {B : Type κ} → Option A → (A → Option B) → Option B
and_then none k = none
and_then (some a) k = k a

unfoldable pub concat : List (Option (List ℕ)) → Option (List ℕ)
concat [] = some []
concat (p ∷ ps) = and_then p (λ bytes. and_then (concat ps) (λ rest. some (bytes ++ rest)))

unfoldable pub elem : List ℕ → List ℕ → Option (List ℕ)
unfolding vint
elem id payload = and_then (vint (length payload)) (λ size. some (id ++ (size ++ payload)))

unfoldable pub master : List ℕ → List (Option (List ℕ)) → Option (List ℕ)
unfolding elem concat
master id children = and_then (concat children) (elem id)

-- The bytes of a number without leading zeros, at least one: `fuel` more bytes at most, in front of
-- those that are there.
unfoldable pub uint_bytes_from : ℕ → ℕ → List ℕ → List ℕ
uint_bytes_from zero v bytes = bytes
uint_bytes_from (suc fuel) v bytes =
    let more = uint_bytes_from fuel (v / 256) (v % 256 ∷ bytes) in
    if v / 256 == 0 then v % 256 ∷ bytes else more

-- A number has at most as many bytes as its value and one more.
unfoldable pub uint_bytes : ℕ → List ℕ
unfolding uint_bytes_from
uint_bytes v = uint_bytes_from (suc v) v []

unfoldable pub uint_elem : List ℕ → ℕ → Option (List ℕ)
unfolding elem uint_bytes
uint_elem id value = elem id (uint_bytes value)

unfoldable pub u32be : ℕ → List ℕ
unfolding be_bytes
u32be value = be_bytes 4 value

abbrev pub unknown_size : List ℕ
unknown_size = 0x01 ∷ 0xff ∷ 0xff ∷ 0xff ∷ 0xff ∷ 0xff ∷ 0xff ∷ 0xff ∷ []
