-- ===== src/Sync/Incoming.antt =====
-- src/sync/ipc.rs: what one round of `handle_read` reads. A blocking read has no timeout: a broker
-- that falls silent in the middle of a frame keeps the reader waiting.
use busrt.Wire.LittleEndian.{from_le}
use busrt.Wire.Source.{Source, closed, stalled, broken, Read, got, ended, read_exact}
use busrt.Protocol.Error.{Result, ok, err, read_error}
use busrt.Protocol.Codes.{FrameKind, nop_kind, acknowledge, frame_kind_of}
use busrt.Ipc.Decode.{split_frame, Incoming, waiting, failed, skipped, acked, arrived}
use busrt.Wire.Source.{Tail}
use busrt.Protocol.Error.{error_bare, timeout}
use busrt.Ipc.Decode
use busrt.Base.{
  byte_at, ℕ, ◌≡◌, refl, sym, subst, ◌⊎◌, inl, inr, Bool, not, none, ltb, ◌==◌, Bool-cases, Bytes,
  length, take, drop,
}

read_body : FrameKind → Bool → Read Bytes → Incoming
read_body kind realtime (ended stalled) = waiting
read_body kind realtime (ended t) = failed (read_error t)
read_body kind realtime (got buf s) = elim (split_frame kind buf) [
  | err e ↦ failed e
  | ok (sender, topic, pos) ↦
      arrived
        (record {
          kind = kind;
          sender = sender;
          topic = topic;
          header = none;
          buf = buf;
          payload_pos = pos;
          is_realtime = realtime;
        })
        s
]

by_kind : Result FrameKind → Bytes → Source → Incoming
by_kind (err e) head s = failed e
by_kind (ok nop_kind) head s = skipped s
by_kind (ok acknowledge) head s = acked (from_le (take 4 (drop 1 head))) (byte_at 5 head) s
by_kind (ok kind) head s =
    read_body kind (not (byte_at 5 head == 0)) (read_exact (from_le (take 4 (drop 1 head))) s)

first_read : Read Bytes → Incoming
first_read (ended stalled) = waiting
first_read (ended t) = failed (read_error t)
first_read (got head s) = by_kind (frame_kind_of (byte_at 0 head)) head s

unfoldable pub read_incoming : Source → Incoming
unfolding first_read by_kind read_body split_frame
read_incoming s = first_read (read_exact 6 s)

-- What both readers make of the same stream: the same, or the other one gives up on a silent broker.
abbrev Agree : Tail → Incoming → Incoming → Type 0
Agree t a b = (a ≡ b) ⊎ ((t ≡ stalled) × (a ≡ waiting) × (b ≡ failed (error_bare timeout)))

abbrev EndsAs : Tail → Read Bytes → Type 0
EndsAs t (ended u) = u ≡ t
EndsAs t (got b s) = s.tail ≡ t

read_exact-EndsAs : (n : ℕ) (s : Source) → EndsAs s.tail (read_exact n s)
unfolding read_exact
read_exact-EndsAs n s = elim (Bool-cases (ltb (length s.bytes) n)) [
  | inl h ↦ rw (h, read_exact) refl
  | inr h ↦ rw (h, read_exact) refl
]

module _ (t : Tail) where
  read_body-Agree :
      (kind : FrameKind) (realtime : Bool) (r : Read Bytes)
      → EndsAs t r
      → Agree t (read_body kind realtime r) (Decode.read_body kind realtime r)
  unfolding read_body Decode.read_body read_error
  read_body-Agree kind realtime (ended stalled) e = inr (sym e, refl, refl)
  read_body-Agree kind realtime (ended closed) e = inl refl
  read_body-Agree kind realtime (ended (broken k b)) e = inl refl
  read_body-Agree kind realtime (got buf s) e = inl refl

  body-Agree :
      (kind : FrameKind) (realtime : Bool) (n : ℕ) (s : Source)
      → s.tail ≡ t
      → Agree t
          (read_body kind realtime (read_exact n s))
          (Decode.read_body kind realtime (read_exact n s))
  body-Agree kind realtime n s e =
      read_body-Agree kind realtime (read_exact n s)
        (subst (λ u. EndsAs u (read_exact n s)) e (read_exact-EndsAs n s))

  by_kind-Agree :
      (kind : Result FrameKind) (head : Bytes) (s : Source)
      → s.tail ≡ t
      → Agree t (by_kind kind head s) (Decode.by_kind kind head s)
  unfolding by_kind Decode.by_kind
  by_kind-Agree (err e) head s h = inl refl
  by_kind-Agree (ok nop_kind) head s h = inl refl
  by_kind-Agree (ok acknowledge) head s h = inl refl
  by_kind-Agree (ok kind) head s h =
      body-Agree kind (not (byte_at 5 head == 0)) (from_le (take 4 (drop 1 head))) s h

  first_read-Agree : (r : Read Bytes) → EndsAs t r → Agree t (first_read r) (Decode.first_read r)
  unfolding first_read Decode.first_read
  first_read-Agree (ended stalled) e = inl refl
  first_read-Agree (ended closed) e = inl refl
  first_read-Agree (ended (broken k b)) e = inl refl
  first_read-Agree (got head s) e = by_kind-Agree (frame_kind_of (byte_at 0 head)) head s e

-- On every stream, one round of the synchronous client's reader reads just what one of the
-- asynchronous client's reads, frame, acknowledgement or error, except where the broker falls silent
-- in the middle of a frame: there the former waits and the latter ends with Timeout.
pub read_incoming-Agree :
    (s : Source)
    → (read_incoming s ≡ Decode.read_incoming s)
      ⊎ ((s.tail ≡ stalled)
          × (read_incoming s ≡ waiting)
          × (Decode.read_incoming s ≡ failed (error_bare timeout)))
unfolding read_incoming Decode.read_incoming
read_incoming-Agree s = first_read-Agree s.tail (read_exact 6 s) (read_exact-EndsAs 6 s)
