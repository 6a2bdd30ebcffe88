-- ===== src/Broker/Writer.antt =====
-- src/broker.rs: `handle_writer`, the bytes that it writes for one frame of a client's queue.
-- A panic is `none`: the payload position must lie within the buffer.
use busrt.Wire.LittleEndian.{to_le}
use busrt.Protocol.Codes.{FrameKind, prepared, frame_kind_code}
use busrt.Protocol.Frame.{FrameData, payload}
use busrt.Base.{
  ℕ, ◌+◌, ◌-◌, ◌%◌, ◌^◌, ◌≡◌, refl, ap, ◌∙◌, ◌≢◌, Bool, true, false, Option, none, some, [], ◌∷◌,
  ◌++◌, arith, Bytes, length, length-drop,
}

abbrev pub part_len : Option Bytes → ℕ
part_len none = 0
part_len (some v) = length v + 1

abbrev pub part : Option Bytes → Bytes
part none = []
part (some v) = v ++ 0 ∷ []

abbrev pub header_bytes : Option Bytes → Bytes
header_bytes none = []
header_bytes (some h) = h

abbrev pub realtime_byte : Bool → ℕ
realtime_byte true = 1
realtime_byte false = 0

-- `extra_len + frame.buf.len() - frame.payload_pos`
unfoldable pub frame_len : FrameData → ℕ
frame_len f =
    part_len f.sender
    + part_len f.topic
    + length (header_bytes f.header)
    + length f.buf
    - f.payload_pos

encode_with : FrameData → Option Bytes → Option Bytes
encode_with f none = none
encode_with f (some p) = some (
    frame_kind_code f.kind
    ∷ (to_le 4 (frame_len f % 2 ^ 32)
        ++ (realtime_byte f.is_realtime
            ∷ (part f.sender ++ (part f.topic ++ (header_bytes f.header ++ p))))))

encode_kind : FrameKind → FrameData → Option Bytes
encode_kind prepared f = some f.buf
encode_kind _ f = encode_with f (payload f)

unfoldable pub encode_frame : FrameData → Option Bytes
unfolding encode_kind encode_with payload
encode_frame f = encode_kind f.kind f

encode_kind_lem :
    (k : FrameKind) (f : FrameData) → k ≢ prepared → encode_kind k f ≡ encode_with f (payload f)
unfolding encode_kind
encode_kind_lem prepared f h = absurd (h refl)
encode_kind_lem _ f h = refl

-- The bytes of a frame that is not prepared, given its payload.
pub encode_frame-payload :
    (f : FrameData) (p : Bytes)
    → f.kind ≢ prepared
    → payload f ≡ some p
    → encode_frame f
      ≡ some (
          frame_kind_code f.kind
          ∷ (to_le 4 (frame_len f % 2 ^ 32)
              ++ (realtime_byte f.is_realtime
                  ∷ (part f.sender ++ (part f.topic ++ (header_bytes f.header ++ p))))))
unfolding encode_frame
encode_frame-payload f p h e = encode_kind_lem f.kind f h ∙ ap (encode_with f) e

-- The length field counts what follows the six bytes of the head.
pub frame_len-payload :
    (f : FrameData) (p : Bytes)
    → payload f ≡ some p
    → frame_len f ≡ part_len f.sender + part_len f.topic + length (header_bytes f.header) + length p
unfolding frame_len payload
frame_len-payload f p e = ground (arith, length-drop f.payload_pos f.buf)
