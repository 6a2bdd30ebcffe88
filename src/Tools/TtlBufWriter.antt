-- ===== src/Tools/TtlBufWriter.antt =====
-- src/comm.rs: `TtlBufWriter`. What the buffer of tokio under it does is given: how many of the bytes
-- that it holds it passes on, and whether it fails.
pub mod Stream
pub mod Flushed
use busrt.Protocol.Error.{Result, ok, err, Error}
use busrt.Base.{
  Table, get, put, del, get-del, get-del_other, get-put, get-put_other, byte_at, ℕ, zero, suc, ◌+◌,
  ◌-◌, ◌*◌, ◌/◌, ◌%◌, ◌^◌, ◌≤◌, ◌<◌, bit_and, bit_or, String, ◌≡◌, refl, sym, ap, ◌∙◌, subst, ◌≢◌,
  ◌↔◌, ◌⊎◌, inl, inr, Bool, true, false, not, ◌&&◌, ◌||◌, Option, none, some, List, [], ◌∷◌, ◌++◌,
  map, append-nil, append_assoc, arith, ltb, leb, ◌==◌, if◌then◌else◌, ltb→lt, lt→ltb, leb→le,
  le→leb, lt→leb, le→ltb, ==_iff, Bool-cases, Option-cases, Bytes, codes, bytes_eq, bytes_eq_iff,
  length, take, drop, is_empty, length-append, length-drop, take-append, drop-append, slice_from,
  slice,
}

pub data Flush : Type 0 where
  no scheduled instant : Flush

-- `From<bool> for Flush`
unfoldable pub flush_of : Bool → Flush
flush_of realtime = if realtime then instant else scheduled

-- The task that flushes waits for a token, or, with a token taken, for the time to live.
pub data Flusher : Type 0 where
  idle sleeping stopped : Flusher

pub record TtlBufWriter : Type 0 where
  pub sink : Bytes
  pub buffered : Bytes
  pub has_token : Bool
  pub flusher : Flusher

abbrev pub new : TtlBufWriter
new = record { sink = []; buffered = []; has_token = false; flusher = idle }

-- `write_all` takes its bytes, or the first k of them and fails; of all that is held then, it passes
-- the first n on. `flush` passes all on, or the first n and fails.
pub data WriteAll : Type 0 where
  taken : ℕ → WriteAll
  cut : Error → ℕ → ℕ → WriteAll

pub data FlushEnd : Type 0 where
  flushed : FlushEnd
  stuck : Error → ℕ → FlushEnd

unfoldable pub pass_on : ℕ → TtlBufWriter → TtlBufWriter
pass_on n w = record w { sink = w.sink ++ take n w.buffered; buffered = drop n w.buffered }

unfoldable pub hold : Bytes → TtlBufWriter → TtlBufWriter
hold b w = record w { buffered = w.buffered ++ b }

-- The bytes that a write takes of those it is given
unfoldable pub accepted : Bytes → WriteAll → Bytes
accepted buf (taken n) = buf
accepted buf (cut e k n) = take k buf

unfoldable pub write_all : TtlBufWriter → Bytes → WriteAll → Result (Unit {0}) × TtlBufWriter
unfolding pass_on hold
write_all w buf (taken n) = (ok tt, pass_on n (hold buf w))
write_all w buf (cut e k n) = (err e, pass_on n (hold (take k buf) w))

unfoldable pub flush : TtlBufWriter → FlushEnd → Result (Unit {0}) × TtlBufWriter
unfolding pass_on
flush w flushed = (ok tt, record w { sink = w.sink ++ w.buffered; buffered = [] })
flush w (stuck e n) = (err e, pass_on n w)

-- `flush().await?` goes before the result of the write.
unfoldable pub first_error : Result (Unit {0}) → Result (Unit {0}) → Result (Unit {0})
first_error (err e) result = err e
first_error (ok _) result = result

unfoldable pub then_flush :
    Result (Unit {0}) → TtlBufWriter → Flush → FlushEnd → Result (Unit {0}) × TtlBufWriter
unfolding flush first_error
then_flush result w instant f = let (r, d) = flush w f in (first_error r result, d)
then_flush result w scheduled f = (result, record w { has_token = true })
then_flush result w no f = (result, w)

unfoldable pub write :
    TtlBufWriter → Bytes → Flush → WriteAll → FlushEnd → Result (Unit {0}) × TtlBufWriter
unfolding write_all then_flush
write w buf fl a f = let (result, d) = write_all w buf a in then_flush result d fl f

-- `rx.recv()` of the flusher
unfoldable pub take_token : TtlBufWriter → TtlBufWriter
take_token w = elim w.flusher [
  | idle ↦ if w.has_token then record w { has_token = false; flusher = sleeping } else w
  | _ ↦ w
]

-- The time to live is over.
unfoldable pub expire : TtlBufWriter → FlushEnd → TtlBufWriter
unfolding flush
expire w f = elim w.flusher [ sleeping ↦ record (flush w f).1 { flusher = idle } | _ ↦ w ]

-- `Drop`: the flusher is stopped, and another task flushes for the last time.
unfoldable pub drop_writer : TtlBufWriter → FlushEnd → TtlBufWriter
unfolding flush
drop_writer w f = record (flush w f).1 { flusher = stopped }
