-- ===== src/Tests/Transport.antt =====
-- Frames over a connection at concrete inputs.
use busrt.Wire.Source.{Source, closed, before}
use busrt.Wire.Split.{split_zero}
use busrt.Wire.Utf8.{is_utf8}
use busrt.Protocol.Error.{ok}
use busrt.Protocol.Codes.{message, processed, publish_kind}
use busrt.Protocol.Frame.{FrameData}
use busrt.Ipc.Encode.{target_frame}
use busrt.Ipc.Decode.{read_incoming, arrived}
use busrt.Ipc.Bulk.{topics_payload, split_zero-topics_payload}
use busrt.Broker.Packet.{Limits, Admits, read_packet, packet}
use busrt.Broker.Target.{IsField, split_target}
use busrt.Broker.Writer.{encode_frame, frame_len}
use busrt.Transport.Uplink.{wire, received, target_frame-received}
use busrt.Transport.Downlink.{IsDelivery, Carries, encode_frame-arrives}
use busrt.Base.{
  ◌+◌, ◌≡◌, refl, inr, true, none, some, [], ◌∷◌, ◌++◌, arith, ◌==◌, if◌then◌else◌, Bytes, codes,
  length, slice_from,
}

abbrev db_name : Bytes
db_name = codes "db"

abbrev me : Bytes
me = codes "me"

abbrev hello : Bytes
hello = 1 ∷ 0 ∷ 255 ∷ []

-- The stream ends with the frame.
abbrev rest : Source
rest = record { bytes = 7 ∷ []; tail = closed }

abbrev limits : Limits
limits = record {
  payload_size_limit = some 64;
  direct_alloc_limit = some 4;
  async_allocator = some (λ name len. if len == 6 then some (0 ∷ 0 ∷ 0 ∷ 0 ∷ 0 ∷ 0 ∷ []) else none);
}

db_name-IsField : IsField db_name
unfolding is_utf8
db_name-IsField = record { no_zero = ((λ e. cc), ((λ e. cc), tt)); utf8 = refl }

me-IsField : IsField me
unfolding is_utf8
me-IsField = record { no_zero = ((λ e. cc), ((λ e. cc), tt)); utf8 = refl }

limits-Admits : Admits limits me 6
limits-Admits = record {
  fits_u32 = omega arith;
  fits_limit = omega arith;
  granted = inr (0 ∷ 0 ∷ 0 ∷ 0 ∷ 0 ∷ 0 ∷ [], refl, refl);
}

abbrev no_limits : Limits
no_limits = record { payload_size_limit = none; direct_alloc_limit = none; async_allocator = none }

no_limits-Admits : Admits no_limits me 9
no_limits-Admits = record { fits_u32 = omega arith; fits_limit = tt; granted = tt }

target_frame-received_example :
    (read_packet limits me (before (wire (target_frame 5 message processed db_name hello)) rest)
      ≡ packet (received 5 message processed (db_name ++ 0 ∷ hello)) rest)
    × (split_target (db_name ++ 0 ∷ hello) ≡ ok (db_name, length db_name + 1))
    × (slice_from (length db_name + 1) (db_name ++ 0 ∷ hello) ≡ some hello)
target_frame-received_example =
    target_frame-received limits me 5 message processed rest (λ e. cc) db_name hello db_name-IsField
      limits-Admits

split_zero-topics_payload_example :
    split_zero (topics_payload (codes "a" ∷ codes "b" ∷ [])) ≡ codes "a" ∷ codes "b" ∷ []
split_zero-topics_payload_example =
    split_zero-topics_payload b'a' [] (codes "b" ∷ []) (((λ e. cc), tt), (((λ e. cc), tt), tt))

-- A publication whose payload lies behind the target in the buffer that the broker read.
abbrev news : FrameData
news = record {
  kind = publish_kind;
  sender = some me;
  topic = some db_name;
  header = none;
  buf = db_name ++ 0 ∷ hello;
  payload_pos = 3;
  is_realtime = true;
}

news-IsDelivery : IsDelivery news me hello
unfolding frame_len busrt.Protocol.Frame.payload
news-IsDelivery = record {
  topic_fits = db_name-IsField;
  sender_is = refl;
  sender_field = me-IsField;
  payload_is = refl;
  fits_u32 = omega arith;
}

encode_frame-arrives_example :
    (w : Bytes) × (r : FrameData) × (encode_frame news ≡ some w)
    × (read_incoming (before w rest) ≡ arrived r rest)
    × Carries news hello r
encode_frame-arrives_example = encode_frame-arrives news me hello news-IsDelivery rest
