-- ===== src/Presence/Wire.antt =====
-- src/presence.ts: the wire messages. A JSON text is parsed by the platform's JSON.parse, which is a
-- parameter here. The human-readable texts of the errors are left out.
use Prim.Native.String.{len}
use wave_realtime_edge.Common.{
  ℕ, ◌*◌, String, Bool, false, Option, none, some, ltb, str_eq, if◌then◌else◌,
}
use wave_realtime_edge.Presence.View.{RoomView}

-- What JSON.parse returns. Of an object only the fields `type` and `data` are ever looked at.
mutual
  pub data Json : Type 0 where
    null : Json
    bool : Bool → Json
    number : ℕ → Json
    text : String → Json
    array : Items → Json
    object : Fields → Json

  pub data Items : Type 0 where
    nil : Items
    cons : Json → Items → Items

  pub data Fields : Type 0 where
    end : Fields
    field : String → Json → Fields → Fields

unfoldable pub field_of : String → Fields → Option Json
field_of k end = none
field_of k (field j v fs) = if str_eq j k then some v else field_of k fs

-- The fields of a value that is `typeof "object"` and not null.
unfoldable pub fields_of : Json → Option Fields
fields_of (object fs) = some fs
fields_of (array xs) = some end
fields_of _ = none

pub data ServerMsg : Type 0 where
  welcome : ℕ → RoomView → ServerMsg
  state : ℕ → RoomView → ServerMsg
  data_from : String → Json → ServerMsg
  pong : ServerMsg
  error : String → ServerMsg

pub data InboundMsg : Type 0 where
  ping : InboundMsg
  data_msg : Json → InboundMsg

pub data InboundResult : Type 0 where
  accepted : InboundMsg → InboundResult
  rejected : String → InboundResult

abbrev pub default_max_message_bytes : ℕ
default_max_message_bytes = 8 * 1024

-- A frame of the socket: text, or an ArrayBuffer.
pub data Frame : Type 0 where
  text_frame : String → Frame
  binary_frame : Frame

unfoldable is_text : String → Option Json → Bool
is_text word (some (text s)) = str_eq s word
is_text word _ = false

-- `parseInbound` below the parse, for the fields of the object that was parsed. The text of the error is
-- left out, and with it that making it throws where `type` is an object that has a `toString` of its own.
unfoldable pub parse_fields : Option Fields → InboundResult
unfolding field_of is_text
parse_fields none = rejected "BAD_MESSAGE"
parse_fields (some fs) =
    if is_text "ping" (field_of "type" fs)
    then accepted ping
    else if is_text "data" (field_of "type" fs)
    then elim (field_of "data" fs) [
      | none ↦ rejected "BAD_MESSAGE"
      | some v ↦ accepted (data_msg v)
    ]
    else rejected "UNKNOWN_TYPE"

unfoldable pub parse_parsed : Option Json → InboundResult
unfolding parse_fields fields_of
parse_parsed none = rejected "BAD_JSON"
parse_parsed (some j) = parse_fields (fields_of j)

module _ (json_parse : String → Option Json) where
  unfoldable pub parse_inbound : Frame → ℕ → InboundResult
  unfolding parse_parsed
  parse_inbound binary_frame max_bytes = rejected "BAD_FRAME"
  parse_inbound (text_frame raw) max_bytes =
      if ltb max_bytes (len raw)
      then rejected "MESSAGE_TOO_LARGE"
      else parse_parsed (json_parse raw)
