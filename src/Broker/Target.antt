-- ===== src/Broker/Target.antt =====
-- src/broker.rs: `handle_reader`, the fields at the front of a packet's buffer: the target, and
-- the receiver of a publication that has one, each with the position behind it.
use busrt.Wire.Split.{break_zero, NoZero, break_zero-append}
use busrt.Wire.Utf8.{is_utf8}
use busrt.Protocol.Error.{Result, ok, ◌>>=◌, ok_or}
use busrt.Protocol.Text.{from_utf8, broken_frame, from_utf8-ok}
use busrt.Base.{
  ℕ, ◌+◌, ◌≡◌, true, some, [], ◌∷◌, ◌++◌, append_assoc, arith, Bytes, length, drop, length-append,
  drop-append, slice_from,
}

unfoldable pub split_target : Bytes → Result (Bytes × ℕ)
split_target buf = do
  let (tgt, rest) = break_zero buf
  target ← from_utf8 tgt
  _ ← ok_or rest broken_frame
  ok (target, length tgt + 1)

unfoldable pub split_receiver : Bytes → ℕ → Result (Bytes × ℕ)
split_receiver buf payload_pos = do
  let (recv, rest) = break_zero (drop payload_pos buf)
  receiver ← from_utf8 recv
  _ ← ok_or rest broken_frame
  ok (receiver, payload_pos + length recv + 1)

-- A field that a frame can carry: UTF-8 text with no zero byte in it.
pub record IsField (t : Bytes) : Type 0 where
  pub no_zero : NoZero t
  pub utf8 : is_utf8 t ≡ true

pub split_target-append :
    (t rest : Bytes) → IsField t → split_target (t ++ 0 ∷ rest) ≡ ok (t, length t + 1)
unfolding split_target
split_target-append t rest h =
    ground (arith, break_zero-append t rest h.no_zero, from_utf8-ok t h.utf8)

pub split_receiver-append :
    (pre r rest : Bytes) (pos : ℕ)
    → pos ≡ length pre
    → IsField r
    → split_receiver (pre ++ (r ++ 0 ∷ rest)) pos ≡ ok (r, pos + length r + 1)
unfolding split_receiver
split_receiver-append pre r rest pos e h = ground (
  arith,
  drop-append pos pre (r ++ 0 ∷ rest) e,
  break_zero-append r rest h.no_zero,
  from_utf8-ok r h.utf8,
)

-- The bytes behind a field and its zero byte.
pub slice_from-field : (t rest : Bytes) → slice_from (length t + 1) (t ++ 0 ∷ rest) ≡ some rest
slice_from-field t rest = ground (
  arith,
  length-append t (0 ∷ rest),
  append_assoc t (0 ∷ []) rest,
  length-append t (0 ∷ []),
  drop-append (length t + 1) (t ++ 0 ∷ []) rest,
)
