-- ===== src/Metering/Lines.antt =====
-- src/metering.ts and the session minutes of src/event-emitter.ts: what the use of one participant is
-- billed as. A quotient of two numbers is kept as the two, so the rounding of the division is left out.
use Prim.Native.String.{◌++◌ as append}
use wave_realtime_edge.Common.{
  true, false, ◌++◌, ◌∷◌, [], List, ℕ, ◌-◌, ◌*◌, ◌&&◌, some, none, ltb, if◌then◌else◌, Option, Bool,
  String,
}
use wave_realtime_edge.Room.Admin.{ParticipantSessionUsage}

-- `numerator / denominator`
pub record Quotient : Type 0 where
  pub numerator : ℕ
  pub denominator : ℕ

abbrev pub no_amount : Quotient
no_amount = record { numerator = 0; denominator = 1 }

-- `amount > 0`
abbrev pub is_positive : Quotient → Bool
is_positive amount = ltb 0 amount.numerator

abbrev pub meter_video_minutes : String
meter_video_minutes = "wave_realtime_video_minutes"

abbrev pub meter_audio_minutes : String
meter_audio_minutes = "wave_realtime_audio_minutes"

abbrev pub meter_egress_gb : String
meter_egress_gb = "wave_sfu_egress_gb"

-- `Infinity` is `none`.
abbrev pub egress_included_gb : Option ℕ
egress_included_gb = none

pub record MeterLine : Type 0 where
  pub meter : String
  pub meter_value : Quotient
  pub event_id : String

-- The difference is tested by comparing the two times.
unfoldable pub connected_minutes : ℕ → ℕ → Quotient
connected_minutes joined_at left_at =
    if ltb joined_at left_at
    then record { numerator = left_at - joined_at; denominator = 60000 }
    else no_amount

-- `egressBytes / 1e9 - includedGb`, over the one denominator. What is included is a whole number.
abbrev overage : ℕ → ℕ → Quotient
overage bytes included =
    if ltb (included * 1000000000) bytes
    then record { numerator = bytes - included * 1000000000; denominator = 1000000000 }
    else no_amount

unfoldable pub egress_overage_gb : Option ℕ → Option ℕ → Quotient
egress_overage_gb none included = no_amount
egress_overage_gb (some bytes) none = no_amount
egress_overage_gb (some bytes) (some included) =
    if ltb 0 bytes then overage bytes included else no_amount

unfoldable pub line_key : ParticipantSessionUsage → String → String
line_key u meter =
    append u.room
      (append ":" (append u.participant_id (append ":" (append u.session_id (append ":" meter)))))

-- `if (wanted) lines.push(...)`, as the lines that it adds.
unfoldable pub line_if : Bool → String → Quotient → ParticipantSessionUsage → List MeterLine
line_if false meter value u = []
line_if true meter value u =
    record { meter = meter; meter_value = value; event_id = line_key u meter } ∷ []

unfoldable pub build_meter_lines : ParticipantSessionUsage → Option ℕ → List MeterLine
build_meter_lines u included =
    let minutes = connected_minutes u.joined_at u.left_at in
    let over = egress_overage_gb u.egress_bytes included in
    line_if (is_positive minutes && u.published_video) meter_video_minutes minutes u
    ++ line_if (is_positive minutes && u.published_audio) meter_audio_minutes minutes u
    ++ line_if (is_positive over) meter_egress_gb over u

-- `SessionMinutes` of src/event-emitter.ts.
pub record SessionMinutes : Type 0 where
  pub video : Quotient
  pub audio : Quotient

unfoldable pub session_minutes_for : ParticipantSessionUsage → SessionMinutes
session_minutes_for u =
    let minutes = connected_minutes u.joined_at u.left_at in
    record {
      video = if is_positive minutes && u.published_video then minutes else no_amount;
      audio = if is_positive minutes && u.published_audio then minutes else no_amount;
    }
