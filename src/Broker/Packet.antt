-- ===== src/Broker/Packet.antt =====
-- src/broker.rs: `handle_reader`, the part of its loop that reads one packet from a client.
use busrt.Wire.LittleEndian.{from_le}
use busrt.Wire.Source.{
  Source, Tail, closed, stalled, broken, unexpected_eof, Read, got, ended, read_exact,
}
use busrt.Protocol.Error.{Result, ok, err, Error, invalid, io, error_of, lit, dec, read_error}
use busrt.Protocol.Codes.{FrameOp, QoS, op_of_flags, qos_of_flags}
use busrt.Base.{
  ℕ, ◌^◌, ◌≤◌, ◌<◌, ◌≡◌, ap, ◌∙◌, ◌≢◌, ◌⊎◌, Option, none, some, [], ◌∷◌, ◌++◌, arith, ltb, ◌==◌,
  if◌then◌else◌, Bytes, length, take, drop, take-append, drop-append,
}

-- The server's limits, and the allocator that the application may have given.
pub record Limits : Type 0 where
  pub payload_size_limit : Option ℕ
  pub direct_alloc_limit : Option ℕ
  pub async_allocator : Option (Bytes → ℕ → Option Bytes)

pub record Packet : Type 0 where
  pub op_id : Bytes
  pub op : FrameOp
  pub qos : QoS
  pub len : ℕ
  pub buf : Bytes

pub data PacketRead : Type 0 where
  finished panicked : PacketRead
  refused : Error → PacketRead
  ping : Source → PacketRead
  packet : Packet → Source → PacketRead

-- The number of bytes that the buffer holds, hence that are read.
pub data Buffer : Type 0 where
  room : ℕ → Buffer
  no_room : Error → Buffer
  no_allocator : Buffer

allocated : ℕ → Option Bytes → Buffer
allocated len none =
    no_room (error_of io (lit "Refused to allocate " ∷ dec len ∷ lit " bytes" ∷ []))
allocated len (some buf) = room (length buf)

allocate : Option (Bytes → ℕ → Option Bytes) → Bytes → ℕ → Buffer
allocate none name len = no_allocator
allocate (some f) name len = allocated len (f name len)

buffer_for : Limits → Bytes → ℕ → Buffer
buffer_for l name len = elim l.direct_alloc_limit [
  | none ↦ room len
  | some limit ↦ if ltb limit len then allocate l.async_allocator name len else room len
]

read_body : ℕ → Bytes → FrameOp → QoS → Read Bytes → PacketRead
read_body len op_id op qos (ended t) = refused (read_error t)
read_body len op_id op qos (got buf s) =
    packet (record { op_id = op_id; op = op; qos = qos; len = len; buf = buf }) s

into_buffer : ℕ → Bytes → FrameOp → QoS → Source → Buffer → PacketRead
into_buffer len op_id op qos s (room n) = read_body len op_id op qos (read_exact n s)
into_buffer len op_id op qos s (no_room e) = refused e
into_buffer len op_id op qos s no_allocator = panicked

exceeds : ℕ → ℕ → Error
exceeds len limit =
    error_of invalid
      (lit "Payload size " ∷ dec len ∷ lit " exceeds the limit of " ∷ dec limit ∷ lit " bytes" ∷ [])

within_limit : Limits → Bytes → Bytes → FrameOp → QoS → ℕ → Source → PacketRead
within_limit l name op_id op qos len s = elim l.payload_size_limit [
  | none ↦ into_buffer len op_id op qos s (buffer_for l name len)
  | some limit ↦
      if ltb limit len
      then refused (exceeds len limit)
      else into_buffer len op_id op qos s (buffer_for l name len)
]

with_codes : Limits → Bytes → Bytes → Result FrameOp → Result QoS → ℕ → Source → PacketRead
with_codes l name op_id (err e) q len s = refused e
with_codes l name op_id (ok op) (err e) len s = refused e
with_codes l name op_id (ok op) (ok qos) len s = within_limit l name op_id op qos len s

with_flags : Limits → Bytes → Bytes → Bytes → Source → PacketRead
with_flags l name op_id [] s = panicked
with_flags l name op_id (f ∷ len) s =
    if f == 0
    then ping s
    else with_codes l name op_id (op_of_flags f) (qos_of_flags f) (from_le len) s

-- The header's read fails: the end of the stream is a regular end of the connection.
header_ended : Tail → PacketRead
header_ended closed = finished
header_ended stalled = refused (read_error stalled)
header_ended (broken unexpected_eof text) = finished
header_ended (broken k text) = refused (read_error (broken k text))

with_header : Limits → Bytes → Read Bytes → PacketRead
with_header l name (ended t) = header_ended t
with_header l name (got head s) = with_flags l name (take 4 head) (drop 4 head) s

unfoldable pub read_packet : Limits → Bytes → Source → PacketRead
unfolding with_header header_ended with_flags with_codes within_limit exceeds buffer_for allocate
    allocated into_buffer read_body
read_packet l name s = with_header l name (read_exact 9 s)

-- The length is within the limit.
abbrev pub Fits : Option ℕ → ℕ → Type 0
Fits none len = Unit {0}
Fits (some limit) len = len ≤ limit

-- Above the direct limit the allocator gives a buffer of the size that was asked for.
abbrev pub Grants : Option ℕ → Option (Bytes → ℕ → Option Bytes) → Bytes → ℕ → Type 0
Grants none a name len = Unit {0}
Grants (some limit) none name len = len ≤ limit
Grants (some limit) (some f) name len =
    (len ≤ limit) ⊎ ((buf : Bytes) × (f name len ≡ some buf) × (length buf ≡ len))

pub record Admits (l : Limits) (name : Bytes) (len : ℕ) : Type 0 where
  pub fits_u32 : len < 2 ^ 32
  pub fits_limit : Fits l.payload_size_limit len
  pub granted : Grants l.direct_alloc_limit l.async_allocator name len

buffer_for-Grants :
    (l : Limits) (name : Bytes) (len : ℕ)
    → Grants l.direct_alloc_limit l.async_allocator name len
    → buffer_for l name len ≡ room len
unfolding buffer_for allocate allocated
buffer_for-Grants l name len g = ground arith

within_limit-Admits :
    (l : Limits) (name op_id : Bytes) (op : FrameOp) (q : QoS) (len : ℕ) (s : Source)
    → Admits l name len
    → within_limit l name op_id op q len s ≡ read_body len op_id op q (read_exact len s)
unfolding within_limit into_buffer
within_limit-Admits l name op_id op q len s a =
    ground (arith, buffer_for-Grants l name len a.granted)

module _ (l : Limits) (name op_id : Bytes) (f : ℕ) (len_b : Bytes) (op : FrameOp) (q : QoS)
    (body : Bytes) (s s' s'' : Source) (e0 : read_exact 9 s ≡ got (op_id ++ f ∷ len_b) s')
    (e4 : 4 ≡ length op_id) (ne : f ≢ 0) (eo : op_of_flags f ≡ ok op) (eq : qos_of_flags f ≡ ok q)
    (el : from_le len_b ≡ length body) (a : Admits l name (length body))
    (er : read_exact (length body) s' ≡ got body s'') where
  with_flags_lem :
      with_flags l name op_id (f ∷ len_b) s'
      ≡ packet (record { op_id = op_id; op = op; qos = q; len = length body; buf = body }) s''
  unfolding with_flags with_codes read_body
  with_flags_lem = ground (arith, within_limit-Admits l name op_id op q (length body) s' a)

  with_header_lem :
      with_header l name (got (op_id ++ f ∷ len_b) s')
      ≡ packet (record { op_id = op_id; op = op; qos = q; len = length body; buf = body }) s''
  unfolding with_header
  with_header_lem =
      rw (take-append 4 op_id (f ∷ len_b) e4, drop-append 4 op_id (f ∷ len_b) e4) with_flags_lem

  -- A whole packet, piece by piece.
  pub read_packet_lem :
      read_packet l name s
      ≡ packet (record { op_id = op_id; op = op; qos = q; len = length body; buf = body }) s''
  unfolding read_packet
  read_packet_lem = ap (with_header l name) e0 ∙ with_header_lem
