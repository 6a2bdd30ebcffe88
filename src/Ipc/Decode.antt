-- ===== src/Ipc/Decode.antt =====
-- src/ipc.rs: `handle_read`, one round of its loop. The first read has no timeout, so a silent
-- broker leaves the client waiting.
use busrt.Wire.LittleEndian.{from_le}
use busrt.Wire.Split.{break_zero}
use busrt.Wire.Source.{Source, stalled, Read, got, ended, read_exact}
use busrt.Protocol.Error.{Result, ok, err, ◌>>=◌, ok_or, Error, read_error}
use busrt.Protocol.Codes.{FrameKind, publish_kind, nop_kind, acknowledge, frame_kind_of}
use busrt.Protocol.Frame.{FrameData}
use busrt.Protocol.Text.{from_utf8, broken_frame}
use busrt.Base.{
  byte_at, ℕ, ◌+◌, ◌≡◌, refl, ap, ◌∙◌, ◌≢◌, Bool, not, Option, none, some, [], ◌∷◌, ◌==◌, Bytes,
  length, take, drop,
}

-- The sender, the topic and the payload's position of a frame from the broker.
unfoldable pub split_frame : FrameKind → Bytes → Result (Option Bytes × Option Bytes × ℕ)
split_frame publish_kind buf = do
  let (s, after_s) = break_zero buf
  sender ← from_utf8 s
  rest ← ok_or after_s broken_frame
  let (t, after_t) = break_zero rest
  topic ← from_utf8 t
  _ ← ok_or after_t broken_frame
  ok (some sender, some topic, length s + length t + 2)
split_frame _ buf = do
  let (s, after_s) = break_zero buf
  sender ← from_utf8 s
  _ ← ok_or after_s broken_frame
  ok (some sender, none, length s + 1)

pub data Incoming : Type 0 where
  waiting : Incoming
  failed : Error → Incoming
  skipped : Source → Incoming
  acked : ℕ → ℕ → Source → Incoming
  arrived : FrameData → Source → Incoming

unfoldable pub read_body : FrameKind → Bool → Read Bytes → Incoming
unfolding split_frame
read_body kind realtime (ended t) = failed (read_error t)
read_body kind realtime (got buf s) = elim (split_frame kind buf) [
  | err e ↦ failed e
  | ok (sender, topic, pos) ↦
      arrived
        (record {
          kind = kind;
          sender = sender;
          topic = topic;
          header = none;
          buf = buf;
          payload_pos = pos;
          is_realtime = realtime;
        })
        s
]

unfoldable pub by_kind : Result FrameKind → Bytes → Source → Incoming
unfolding read_body
by_kind (err e) head s = failed e
by_kind (ok nop_kind) head s = skipped s
by_kind (ok acknowledge) head s = acked (from_le (take 4 (drop 1 head))) (byte_at 5 head) s
by_kind (ok kind) head s =
    read_body kind (not (byte_at 5 head == 0)) (read_exact (from_le (take 4 (drop 1 head))) s)

unfoldable pub first_read : Read Bytes → Incoming
unfolding by_kind
first_read (ended stalled) = waiting
first_read (ended t) = failed (read_error t)
first_read (got head s) = by_kind (frame_kind_of (byte_at 0 head)) head s

unfoldable pub read_incoming : Source → Incoming
unfolding first_read by_kind read_body split_frame from_utf8 break_zero
read_incoming s = first_read (read_exact 6 s)

by_kind_lem :
    (kind : FrameKind) (head : Bytes) (s : Source)
    → kind ≢ nop_kind
    → kind ≢ acknowledge
    → by_kind (ok kind) head s
      ≡ read_body kind (not (byte_at 5 head == 0)) (read_exact (from_le (take 4 (drop 1 head))) s)
unfolding by_kind
by_kind_lem nop_kind head s n a = absurd (n refl)
by_kind_lem acknowledge head s n a = absurd (a refl)
by_kind_lem _ head s n a = refl

module _ (kind : FrameKind) (kc b1 b2 b3 b4 rt : ℕ) (body : Bytes) (s s' s'' : Source)
    (sender topic : Option Bytes) (pos : ℕ)
    (e0 : read_exact 6 s ≡ got (kc ∷ b1 ∷ b2 ∷ b3 ∷ b4 ∷ rt ∷ []) s')
    (ek : frame_kind_of kc ≡ ok kind) (nn : kind ≢ nop_kind) (na : kind ≢ acknowledge)
    (el : from_le (b1 ∷ b2 ∷ b3 ∷ b4 ∷ []) ≡ length body)
    (er : read_exact (length body) s' ≡ got body s'')
    (es : split_frame kind body ≡ ok (sender, topic, pos)) where
  read_body_lem :
      read_body kind (not (rt == 0)) (got body s'')
      ≡ arrived
          (record {
            kind = kind;
            sender = sender;
            topic = topic;
            header = none;
            buf = body;
            payload_pos = pos;
            is_realtime = not (rt == 0);
          })
          s''
  unfolding read_body
  read_body_lem = rw (es, read_body)

  first_read_lem :
      first_read (got (kc ∷ b1 ∷ b2 ∷ b3 ∷ b4 ∷ rt ∷ []) s')
      ≡ read_body kind (not (rt == 0)) (got body s'')
  unfolding first_read
  first_read_lem =
      ap (λ k. by_kind k (kc ∷ b1 ∷ b2 ∷ b3 ∷ b4 ∷ rt ∷ []) s') ek
      ∙ by_kind_lem kind (kc ∷ b1 ∷ b2 ∷ b3 ∷ b4 ∷ rt ∷ []) s' nn na
      ∙ ap (λ n. read_body kind (not (rt == 0)) (read_exact n s')) el
      ∙ ap (read_body kind (not (rt == 0))) er

  -- A whole data frame, piece by piece.
  pub read_incoming_lem :
      read_incoming s
      ≡ arrived
          (record {
            kind = kind;
            sender = sender;
            topic = topic;
            header = none;
            buf = body;
            payload_pos = pos;
            is_realtime = not (rt == 0);
          })
          s''
  unfolding read_incoming
  read_incoming_lem = ap first_read e0 ∙ first_read_lem ∙ read_body_lem

-- An acknowledgement has no body: the code stands where the realtime flag does.
pub read_incoming-acked :
    (b1 b2 b3 b4 code : ℕ) (s s' : Source)
    → read_exact 6 s ≡ got (0xfe ∷ b1 ∷ b2 ∷ b3 ∷ b4 ∷ code ∷ []) s'
    → read_incoming s ≡ acked (from_le (b1 ∷ b2 ∷ b3 ∷ b4 ∷ [])) code s'
unfolding read_incoming first_read by_kind frame_kind_of
read_incoming-acked b1 b2 b3 b4 code s s' e = ap first_read e ∙ refl
