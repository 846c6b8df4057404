-- ===== src/Whip/Resource.antt =====
-- src/whip-resource.ts: the record of a WHIP publish in the key-value store. The platform's JSON is a
-- parameter.
use Prim.Native.Char.{code}
use text.Mathlib.TextLemmas.{nil-append, cons-append}
use Prim.Native.String.{◌++◌ as append}
use wave_realtime_edge.Common.{
  ℕ, zero, suc, String, str_eq, ◌≡◌, refl, ap, ◌∙◌, ◌≢◌, Bool, true, ◌&&◌, ◌||◌, Option, none, some,
  arith, leb, ◌==◌, if◌then◌else◌, Dict, get,
}

-- `RESOURCE_ID`: 8 to 128 characters of the url-safe alphabet.
unfoldable pub is_url_safe : ℕ → Bool
is_url_safe c =
    leb 48 c && leb c 57 || leb 65 c && leb c 90 || leb 97 c && leb c 122 || c == 95 || c == 45

unfoldable pub all_url_safe : String → Bool
unfolding is_url_safe
all_url_safe String.[] = true
all_url_safe (String.◌∷◌ c s) = is_url_safe (code c) && all_url_safe s

unfoldable pub count_chars : String → ℕ
count_chars String.[] = 0
count_chars (String.◌∷◌ c s) = suc (count_chars s)

unfoldable pub is_resource_id : String → Bool
unfolding all_url_safe count_chars
is_resource_id s = all_url_safe s && leb 8 (count_chars s) && leb (count_chars s) 128

abbrev pub whip_kv_prefix : String
whip_kv_prefix = "whip:"

abbrev pub resource_key : String → String
resource_key resource_id = append whip_kv_prefix resource_id

-- `name.slice(n)`
abbrev pub slice_from : ℕ → String → String
slice_from zero s = s
slice_from (suc n) String.[] = String.[]
slice_from (suc n) (String.◌∷◌ c s) = slice_from n s

-- The resource id of the name of a key.
abbrev pub id_of : String → String
id_of name = slice_from 5 name

pub id_of-resource_key : (resource_id : String) → id_of (resource_key resource_id) ≡ resource_id
id_of-resource_key s =
    ap (slice_from 5) (cons-append "w" "hip:" s)
    ∙ ap (slice_from 4) (cons-append "h" "ip:" s)
    ∙ ap (slice_from 3) (cons-append "i" "p:" s)
    ∙ ap (slice_from 2) (cons-append "p" ":" s)
    ∙ ap (slice_from 1) (cons-append ":" "" s)
    ∙ nil-append s

-- Where the sweep keeps its place in the listing.
abbrev pub whip_sweep_cursor_key : String
whip_sweep_cursor_key = "whipsweep:cursor"

abbrev first_code : String → ℕ
first_code String.[] = 0
first_code (String.◌∷◌ c s) = code c

-- The place of the sweep is never the key of a resource.
pub resource_key-ne_cursor :
    (resource_id : String) → resource_key resource_id ≢ whip_sweep_cursor_key
resource_key-ne_cursor s h =
    let fifth : first_code (slice_from 4 (resource_key s)) ≡ 58 =
      ap (λ z. first_code (slice_from 4 z)) (cons-append "w" "hip:" s)
      ∙ ap (λ z. first_code (slice_from 3 z)) (cons-append "h" "ip:" s)
      ∙ ap (λ z. first_code (slice_from 2 z)) (cons-append "i" "p:" s)
      ∙ ap (λ z. first_code (slice_from 1 z)) (cons-append "p" ":" s)
      ∙ ap first_code (cons-append ":" "" s) in
    let other : first_code (slice_from 4 whip_sweep_cursor_key) ≡ 115 = refl in
    absurd (omega (arith, fifth, other, ap (λ z. first_code (slice_from 4 z)) h))

pub record WhipResource : Type 0 where
  pub session_id : String
  pub org : String
  pub started_at : ℕ
  pub room : Option String
  pub meter : Option String
  pub last_seen_at : Option ℕ
  pub disconnected_since : Option ℕ

-- What JSON.parse makes of a text that it reads as an object: each field that has the right type.
pub record PartialResource : Type 0 where
  pub session_id? : Option String
  pub org? : Option String
  pub started_at? : Option ℕ
  pub room? : Option String
  pub meter? : Option String
  pub last_seen_at? : Option ℕ
  pub disconnected_since? : Option ℕ

-- The object that JSON.stringify writes of a record; a field that is undefined is left out.
abbrev pub to_partial : WhipResource → PartialResource
to_partial r = record {
  session_id? = some r.session_id;
  org? = some r.org;
  started_at? = some r.started_at;
  room? = r.room;
  meter? = r.meter;
  last_seen_at? = r.last_seen_at;
  disconnected_since? = r.disconnected_since;
}

abbrev pub WhipStore : Type 0
WhipStore = Dict String

unfoldable pub typed : PartialResource → Option WhipResource
typed p = elim p.session_id? [
  | none ↦ none
  | some session_id ↦ elim p.org? [
    | none ↦ none
    | some org ↦ elim p.started_at? [
      | none ↦ none
      | some started_at ↦ some (record {
        session_id = session_id;
        org = org;
        started_at = started_at;
        room = p.room?;
        meter = p.meter?;
        last_seen_at = p.last_seen_at?;
        disconnected_since = p.disconnected_since?;
      })
    ]
  ]
]

-- The record that a stored text stands for: none if it is empty, is not JSON, or lacks a field.
unfoldable pub read_raw : (String → Option PartialResource) → String → Option WhipResource
unfolding typed
read_raw json_parse raw =
    if str_eq raw "" then none else elim (json_parse raw) [ none ↦ none | some p ↦ typed p ]

-- `loadResource`
unfoldable pub load_resource :
    (String → Option PartialResource) → WhipStore → String → Option WhipResource
unfolding read_raw get
load_resource json_parse kv resource_id = elim (get (resource_key resource_id) kv) [
  | none ↦ none
  | some raw ↦ read_raw json_parse raw
]
