-- ===== src/Transport/Downlink.antt =====
-- From the frame in a client's queue, as the broker's `handle_writer` writes it, to the frame that
-- the client's `handle_read` gives to the application.
use busrt.Broker.Target.{slice_from-field}
use busrt.Protocol.Codes.{frame_kind_code}
use busrt.Broker.Writer.{realtime_byte}
use busrt.Wire.Split.{break_zero-append}
use busrt.Protocol.Error.{ok}
use busrt.Protocol.Codes.{
  FrameKind, message_kind, broadcast_kind, publish_kind, prepared, nop_kind, acknowledge,
}
use busrt.Protocol.Text.{from_utf8-ok}
use busrt.Protocol.Frame.{FrameData, payload as payload_of}
use busrt.Broker.Target.{IsField}
use busrt.Broker.Writer.{frame_len, part, header_bytes, part_len}
use busrt.Ipc.Decode.{split_frame}
use busrt.Wire.Source.{Source, before, read_exact-before}
use busrt.Wire.LittleEndian.{to_le, from_le-to_le_u32}
use busrt.Broker.Writer.{encode_frame, frame_len, realtime_byte}
use busrt.Ipc.Decode.{arrived, read_incoming, read_incoming_lem}
use native.Mathlib.Nat.{add-zero}
use busrt.Protocol.Codes.{frame_kind_of}
use busrt.Broker.Writer.{encode_frame-payload, frame_len-payload}
use busrt.Base.{
  ◌+◌, ◌/◌, ◌%◌, ◌^◌, ◌<◌, ◌≡◌, refl, sym, ap, ◌∙◌, ◌≢◌, Bool, true, false, not, Option, none, some,
  [], ◌∷◌, ◌++◌, append_assoc, arith, ◌==◌, Bytes, length, length-append, slice_from,
}

-- A topic goes with publications, and with nothing else.
abbrev pub TopicFits : FrameKind → Option Bytes → Type 0
TopicFits message_kind none = Unit {0}
TopicFits broadcast_kind none = Unit {0}
TopicFits publish_kind (some t) = IsField t
TopicFits _ _ = ⊥

-- What the broker puts into a client's queue for a message, a broadcast or a publication.
pub record IsDelivery (f : FrameData) (sender payload : Bytes) : Type 0 where
  pub topic_fits : TopicFits f.kind f.topic
  pub sender_is : f.sender ≡ some sender
  pub sender_field : IsField sender
  pub payload_is : payload_of f ≡ some payload
  pub fits_u32 : frame_len f < 2 ^ 32

-- The bytes behind the six of a frame's head.
body_of : FrameData → Bytes → Bytes → Bytes
body_of f n p = n ++ 0 ∷ (part f.topic ++ (header_bytes f.header ++ p))

-- What the client makes of it: the same frame, with the header joined to the payload.
abbrev pub Carries : FrameData → Bytes → FrameData → Type 0
Carries f p r =
    (r.kind ≡ f.kind)
    × (r.sender ≡ f.sender)
    × (r.topic ≡ f.topic)
    × (r.is_realtime ≡ f.is_realtime)
    × (r.header ≡ none)
    × (payload_of r ≡ some (header_bytes f.header ++ p))

split_frame-topic :
    (k : FrameKind) (topic : Option Bytes) (n rest : Bytes)
    → TopicFits k topic
    → IsField n
    → split_frame k (n ++ 0 ∷ (part topic ++ rest))
      ≡ ok (some n, topic, length n + 1 + part_len topic)
unfolding split_frame
split_frame-topic message_kind none n rest t h =
    ground (arith, break_zero-append n rest h.no_zero, from_utf8-ok n h.utf8)
split_frame-topic broadcast_kind none n rest t h =
    ground (arith, break_zero-append n rest h.no_zero, from_utf8-ok n h.utf8)
split_frame-topic publish_kind (some u) n rest t h = ground (
  arith,
  append_assoc u (0 ∷ []) rest,
  break_zero-append n (u ++ 0 ∷ rest) h.no_zero,
  break_zero-append u rest t.no_zero,
  from_utf8-ok n h.utf8,
  from_utf8-ok u t.utf8,
)
split_frame-topic prepared none n rest t h = absurd t
split_frame-topic prepared (some u) n rest t h = absurd t
split_frame-topic nop_kind none n rest t h = absurd t
split_frame-topic nop_kind (some u) n rest t h = absurd t
split_frame-topic acknowledge none n rest t h = absurd t
split_frame-topic acknowledge (some u) n rest t h = absurd t
split_frame-topic message_kind (some u) n rest t h = absurd t
split_frame-topic broadcast_kind (some u) n rest t h = absurd t
split_frame-topic publish_kind none n rest t h = absurd t

slice_from-topic :
    (n : Bytes) (topic : Option Bytes) (rest : Bytes)
    → slice_from (length n + 1 + part_len topic) (n ++ 0 ∷ (part topic ++ rest)) ≡ some rest
slice_from-topic n none rest = rw add-zero (slice_from-field n rest)
slice_from-topic n (some u) rest =
    ap (λ k. slice_from k (n ++ 0 ∷ ((u ++ 0 ∷ []) ++ rest)))
      (omega (arith, length-append n (0 ∷ u)))
    ∙ ap (slice_from (length (n ++ 0 ∷ u) + 1)) (
        ap (λ b. n ++ 0 ∷ b) (append_assoc u (0 ∷ []) rest)
        ∙ sym (append_assoc n (0 ∷ u) (0 ∷ rest)))
    ∙ slice_from-field (n ++ 0 ∷ u) rest

length-part : (t : Option Bytes) → length (part t) ≡ part_len t
length-part none = refl
length-part (some t) = length-append t (0 ∷ []) ∙ refl

not_realtime : (b : Bool) → not (realtime_byte b == 0) ≡ b
not_realtime true = refl
not_realtime false = refl

TopicFits-kind :
    (k : FrameKind) (t : Option Bytes)
    → TopicFits k t
    → (frame_kind_of (frame_kind_code k) ≡ ok k)
      × (k ≢ prepared)
      × (k ≢ nop_kind)
      × (k ≢ acknowledge)
unfolding frame_kind_of frame_kind_code
TopicFits-kind message_kind t h = ground arith
TopicFits-kind broadcast_kind t h = ground arith
TopicFits-kind publish_kind t h = ground arith
TopicFits-kind prepared none h = absurd h
TopicFits-kind prepared (some t) h = absurd h
TopicFits-kind nop_kind none h = absurd h
TopicFits-kind nop_kind (some t) h = absurd h
TopicFits-kind acknowledge none h = absurd h
TopicFits-kind acknowledge (some t) h = absurd h

module _ (f : FrameData) (n p : Bytes) (d : IsDelivery f n p) (s : Source) where
  length-body_of : frame_len f ≡ length (body_of f n p)
  unfolding body_of
  length-body_of = omega (
    arith,
    frame_len-payload f p d.payload_is,
    ap part_len d.sender_is,
    length-append n (0 ∷ (part f.topic ++ (header_bytes f.header ++ p))),
    length-append (part f.topic) (header_bytes f.header ++ p),
    length-append (header_bytes f.header) p,
    length-part f.topic,
  )

  bytes_of : Bytes
  unfolding to_le body_of
  bytes_of =
      frame_kind_code f.kind
      ∷ (to_le 4 (frame_len f % 2 ^ 32) ++ (realtime_byte f.is_realtime ∷ body_of f n p))

  encode_frame-bytes_of : encode_frame f ≡ some bytes_of
  unfolding bytes_of body_of
  encode_frame-bytes_of =
      encode_frame-payload f p (TopicFits-kind f.kind f.topic d.topic_fits).1 d.payload_is
      ∙ ap
          (λ b. some (
            frame_kind_code f.kind
            ∷ (to_le 4 (frame_len f % 2 ^ 32) ++ (realtime_byte f.is_realtime ∷ b))))
          (ap (λ t. part t ++ (part f.topic ++ (header_bytes f.header ++ p))) d.sender_is
            ∙ append_assoc n (0 ∷ []) (part f.topic ++ (header_bytes f.header ++ p)))

  -- A message, broadcast or publication in a client's queue reaches the application as it was
  -- sent: the broker's writer encodes it, and the client reads from these bytes, whatever follows
  -- them, a frame of the same kind, sender, topic and realtime flag, whose payload is the frame's
  -- header and payload together, and which has no header of its own.
  pub encode_frame-arrives :
      (w : Bytes) × (r : FrameData) × (encode_frame f ≡ some w)
      × (read_incoming (before w s) ≡ arrived r s)
      × Carries f p r
  unfolding bytes_of body_of to_le payload_of
  encode_frame-arrives =
      let m = frame_len f % 2 ^ 32 in
      let k = TopicFits-kind f.kind f.topic d.topic_fits in
      let body = body_of f n p in
      (
        bytes_of,
        _,
        encode_frame-bytes_of,
        read_incoming_lem f.kind (frame_kind_code f.kind) (m % 256) (m / 256 % 256)
            (m / 256 / 256 % 256) (m / 256 / 256 / 256 % 256) (realtime_byte f.is_realtime) body _ _
            _ (some n) f.topic (length n + 1 + part_len f.topic)
            (read_exact-before 6 _ (before body s) refl) k.0 k.2 k.3
            (from_le-to_le_u32 m (omega arith) ∙ omega (arith, d.fits_u32, length-body_of))
            (read_exact-before (length body) body s refl)
            (split_frame-topic f.kind f.topic n (header_bytes f.header ++ p) d.topic_fits
              d.sender_field),
        (
          refl,
          sym d.sender_is,
          refl,
          not_realtime f.is_realtime,
          refl,
          slice_from-topic n f.topic (header_bytes f.header ++ p),
        ),
      )
