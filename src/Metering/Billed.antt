-- ===== src/Metering/Billed.antt =====
-- What a participant who leaves a room is billed for: RoomCore.leaveRoom, then buildMeterLines of
-- src/metering.ts and sessionMinutesFor of src/event-emitter.ts.
use mathlib.Core.Option.{some-injective}
use wave_realtime_edge.Common.{
  get, sym, sym, All, ◌∙◌, some, Option, true, false, ◌++◌, ◌∷◌, [], refl, ap, arith, str_eq, List,
  ℕ, ltb, ◌-◌, ◌&&◌, none, if◌then◌else◌, ◌≡◌, String, Bool,
}
use wave_realtime_edge.Room.State.{
  RoomConfig, RoomState, TrackKind, audio, video, Participant, RoomTrack,
}
use wave_realtime_edge.Room.Core.{save}
use wave_realtime_edge.Room.Admin.{leave_room, ParticipantSessionUsage}
use wave_realtime_edge.Room.Tracks.{TrackRequest, register_track}
use wave_realtime_edge.Room.Store.{Call, apply_all, unseats}
use wave_realtime_edge.Room.Usage.{billed_kind, leave_room-kept, register_track-HasPublished}
use wave_realtime_edge.Metering.Lines.{
  is_positive, Quotient, no_amount, meter_video_minutes, meter_audio_minutes, meter_egress_gb,
  egress_included_gb, MeterLine, connected_minutes, egress_overage_gb, line_if, build_meter_lines,
  SessionMinutes, session_minutes_for,
}

abbrev pub meter_of : TrackKind → String
meter_of audio = meter_audio_minutes
meter_of video = meter_video_minutes

abbrev pub tier : TrackKind → SessionMinutes → Quotient
tier audio minutes = minutes.audio
tier video minutes = minutes.video

-- What the lines bill on a meter, one value for each line.
unfoldable pub values_of : String → List MeterLine → List Quotient
values_of meter [] = []
values_of meter (line ∷ lines) =
    let rest = values_of meter lines in
    if str_eq line.meter meter then line.meter_value ∷ rest else rest

-- The time from the join to the leave, in minutes.
abbrev pub connected : ℕ → ℕ → Quotient
connected joined_at left_at = record { numerator = left_at - joined_at; denominator = 60000 }

line_if-values :
    (b : Bool) (meter wanted : String) (value : Quotient) (u : ParticipantSessionUsage)
    → values_of wanted (line_if b meter value u)
      ≡ (if b && str_eq meter wanted then value ∷ [] else [])
unfolding values_of line_if
line_if-values false meter wanted value u = refl
line_if-values true meter wanted value u = refl

values_of-append :
    (meter : String) (ls ms : List MeterLine)
    → values_of meter (ls ++ ms) ≡ values_of meter ls ++ values_of meter ms
unfolding values_of
values_of-append meter [] ms = refl
values_of-append meter (l ∷ ls) ms = ground (arith, values_of-append meter ls ms)

is_positive-connected_minutes :
    (joined_at left_at : ℕ)
    → is_positive (connected_minutes joined_at left_at) ≡ ltb joined_at left_at
unfolding connected_minutes
is_positive-connected_minutes joined_at left_at = ground arith

egress_overage_gb-unlimited :
    (bytes : Option ℕ) → egress_overage_gb bytes egress_included_gb ≡ no_amount
unfolding egress_overage_gb
egress_overage_gb-unlimited none = refl
egress_overage_gb-unlimited (some bytes) = refl

build_meter_lines-values :
    (meter : String) (u : ParticipantSessionUsage)
    → values_of meter (build_meter_lines u egress_included_gb)
      ≡ (if (ltb u.joined_at u.left_at && u.published_video) && str_eq meter_video_minutes meter
          then connected_minutes u.joined_at u.left_at ∷ []
          else [])
        ++ (if (ltb u.joined_at u.left_at && u.published_audio) && str_eq meter_audio_minutes meter
            then connected_minutes u.joined_at u.left_at ∷ []
            else [])
        ++ []
unfolding build_meter_lines
build_meter_lines-values meter u =
    let minutes = connected_minutes u.joined_at u.left_at in
    rw
      (
        values_of-append meter,
        values_of-append meter,
        line_if-values _ meter_video_minutes meter minutes u,
        line_if-values _ meter_audio_minutes meter minutes u,
        line_if-values _ meter_egress_gb meter _ u,
        egress_overage_gb-unlimited u.egress_bytes,
        is_positive-connected_minutes u.joined_at u.left_at,
      )
      refl

-- Both accounts of the leave bill a published kind for the time between the join and the leave.
build_meter_lines-published :
    (k : TrackKind) (u : ParticipantSessionUsage) (joined_at left_at : ℕ)
    → u.joined_at ≡ joined_at
    → u.left_at ≡ left_at
    → billed_kind k u ≡ true
    → (values_of (meter_of k) (build_meter_lines u egress_included_gb)
        ≡ (if ltb joined_at left_at then connected joined_at left_at ∷ [] else []))
      × (values_of meter_egress_gb (build_meter_lines u egress_included_gb) ≡ [])
      × (tier k (session_minutes_for u)
          ≡ (if ltb joined_at left_at then connected joined_at left_at else no_amount))
unfolding session_minutes_for connected_minutes
build_meter_lines-published audio u joined_at left_at j l b = (
  build_meter_lines-values meter_audio_minutes u ∙ ground arith,
  build_meter_lines-values meter_egress_gb u ∙ ground arith,
  ground arith,
)
build_meter_lines-published video u joined_at left_at j l b = (
  build_meter_lines-values meter_video_minutes u ∙ ground arith,
  build_meter_lines-values meter_egress_gb u ∙ ground arith,
  ground arith,
)

-- Once a track of a kind has been registered in a bound room for a seated participant, and after any
-- further calls that neither take the participant's seat away nor give it anew, `leaveRoom` returns a
-- usage record for which `buildMeterLines` with the default allotment bills the kind's meter exactly
-- once, for the time from the participant's join to the leave (not at all when that is not positive),
-- and bills no egress; the minutes of that kind in the session.ended event are the same.
pub leave_room-bills :
    (now : ℕ) (org : String) (t : TrackRequest) (s s' : RoomState) (track : RoomTrack)
    (config : RoomConfig) (p : Participant) (cs : List Call) (at later : ℕ)
    → s'.config ≡ some config
    → config.org ≡ org
    → get t.participant_id s.participants ≡ some p
    → register_track now org t s ≡ save s' track
    → All (λ c. unseats c t.participant_id ≡ false) cs
    → (left : RoomState) × (u : ParticipantSessionUsage) × (leave_room at later org t.participant_id
          (apply_all cs s')
        ≡ save left (some u))
      × (values_of (meter_of t.kind) (build_meter_lines u egress_included_gb)
          ≡ (if ltb p.joined_at later then connected p.joined_at later ∷ [] else []))
      × (values_of meter_egress_gb (build_meter_lines u egress_included_gb) ≡ [])
      × (tier t.kind (session_minutes_for u)
          ≡ (if ltb p.joined_at later then connected p.joined_at later else no_amount))
leave_room-bills now org t s s' track config p cs at later c o seat e a =
    let (owner, found, h) = register_track-HasPublished now org t s s' track e in
    let (left, u, f, b, joined, end) =
      leave_room-kept t.kind t.participant_id org owner.joined_at s' config cs at later c o h a in
    let since : u.joined_at ≡ p.joined_at =
      joined ∙ ap (λ q. q.joined_at) (some-injective _ _ (sym found ∙ seat)) in
    let (lines, egress, event) =
      build_meter_lines-published t.kind u p.joined_at later since end b in
    (left, u, f, lines, egress, event)
