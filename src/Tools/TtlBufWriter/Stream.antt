-- ===== src/Tools/TtlBufWriter/Stream.antt =====
-- The buffered writer as what it stands for: one stream of bytes.
use busrt.Tools.TtlBufWriter.{flush_of}
use busrt.Protocol.Error.{Result}
use busrt.Tools.TtlBufWriter.{
  Flush, no, scheduled, instant, Flusher, idle, sleeping, stopped, TtlBufWriter, new, WriteAll,
  taken, cut, FlushEnd, flushed, stuck, pass_on, hold, accepted, write_all, flush, then_flush,
  write, take_token, expire, drop_writer,
}
use busrt.Base.{
  ℕ, zero, suc, ◌≡◌, refl, sym, ap, ◌∙◌, ◌≢◌, Bool, true, false, [], ◌∷◌, ◌++◌, append-nil,
  append_assoc, arith, Bytes, take, drop,
}

abbrev pub stream : TtlBufWriter → Bytes
stream w = w.sink ++ w.buffered

take-drop : (n : ℕ) (xs : Bytes) → take n xs ++ drop n xs ≡ xs
take-drop zero xs = refl
take-drop (suc n) [] = refl
take-drop (suc n) (x ∷ xs) = ap (◌∷◌ x) (take-drop n xs)

stream-pass_on : (n : ℕ) (w : TtlBufWriter) → stream (pass_on n w) ≡ stream w
unfolding pass_on
stream-pass_on n w =
    append_assoc w.sink (take n w.buffered) (drop n w.buffered)
    ∙ ap (◌++◌ w.sink) (take-drop n w.buffered)

stream-hold : (b : Bytes) (w : TtlBufWriter) → stream (hold b w) ≡ stream w ++ b
unfolding hold
stream-hold b w = sym (append_assoc w.sink w.buffered b)

pub stream-flush : (w : TtlBufWriter) (f : FlushEnd) → stream (flush w f).1 ≡ stream w
unfolding flush
stream-flush w flushed = append-nil (w.sink ++ w.buffered)
stream-flush w (stuck e n) = stream-pass_on n w

pub stream-write_all :
    (w : TtlBufWriter) (buf : Bytes) (a : WriteAll)
    → stream (write_all w buf a).1 ≡ stream w ++ accepted buf a
unfolding write_all accepted
stream-write_all w buf (taken n) = stream-pass_on n (hold buf w) ∙ stream-hold buf w
stream-write_all w buf (cut e k n) =
    stream-pass_on n (hold (take k buf) w) ∙ stream-hold (take k buf) w

pub stream-then_flush :
    (r : Result (Unit {0})) (w : TtlBufWriter) (fl : Flush) (f : FlushEnd)
    → stream (then_flush r w fl f).1 ≡ stream w
unfolding then_flush
stream-then_flush r w instant f = stream-flush w f
stream-then_flush r w scheduled f = refl
stream-then_flush r w no f = refl

-- The writer after some calls and some rounds of its flusher, and the bytes that it took.
pub data Run : TtlBufWriter → Bytes → Type 0 where
  begins : Run new []
  writes :
      {w : TtlBufWriter} {log : Bytes} (buf : Bytes) (fl : Flush) (a : WriteAll) (f : FlushEnd)
      → Run w log
      → Run (write w buf fl a f).1 (log ++ accepted buf a)
  wakes : {w : TtlBufWriter} {log : Bytes} → Run w log → Run (take_token w) log
  expires : {w : TtlBufWriter} {log : Bytes} (f : FlushEnd) → Run w log → Run (expire w f) log
  drops : {w : TtlBufWriter} {log : Bytes} (f : FlushEnd) → Run w log → Run (drop_writer w f) log

pub stream-take_token : (w : TtlBufWriter) → stream (take_token w) ≡ stream w
unfolding take_token
stream-take_token w = ground arith

pub expire-cases :
    (w : TtlBufWriter) (k : Flusher) (f : FlushEnd) → w.flusher ≡ k → stream (expire w f) ≡ stream w
unfolding expire
expire-cases w idle f e = rw (e, expire) refl
expire-cases w sleeping f e = rw (e, expire) (stream-flush w f)
expire-cases w stopped f e = rw (e, expire) refl

-- However the writes and the flushes go, and whenever the flusher runs: what has gone out and what is
-- held back are together the bytes that the writes took, in their order, none lost and none twice.
pub Run-stream : {w : TtlBufWriter} {log : Bytes} → Run w log → stream w ≡ log
unfolding write drop_writer
Run-stream begins = refl
Run-stream (writes {w = w} buf fl a f r) =
    let x = write_all w buf a in
    stream-then_flush x.0 x.1 fl f
    ∙ stream-write_all w buf a
    ∙ ap (λ s. s ++ accepted buf a) (Run-stream r)
Run-stream (wakes {w = w} r) = stream-take_token w ∙ Run-stream r
Run-stream (expires {w = w} f r) = expire-cases w w.flusher f refl ∙ Run-stream r
Run-stream (drops {w = w} f r) = stream-flush w f ∙ Run-stream r

-- One round of the flusher in which the flush succeeds.
abbrev pub round : TtlBufWriter → TtlBufWriter
round w = expire (take_token w) flushed

round-scheduled :
    (w : TtlBufWriter) → w.flusher ≢ stopped → w.has_token ≡ true → (round w).buffered ≡ []
unfolding expire take_token flush
round-scheduled w h t = ground arith

round-empty : (w : TtlBufWriter) → w.buffered ≡ [] → (round w).buffered ≡ []
unfolding expire take_token flush
round-empty w e = ground arith

stream-round : (w : TtlBufWriter) → stream (round w) ≡ stream w
stream-round w =
    expire-cases (take_token w) (take_token w).flusher flushed refl ∙ stream-take_token w

sink-stream : (w : TtlBufWriter) → w.buffered ≡ [] → w.sink ≡ stream w
sink-stream w e = sym (append-nil w.sink) ∙ ap (◌++◌ w.sink) (sym e)

then_flush-round :
    (r : Result (Unit {0})) (w : TtlBufWriter) (realtime : Bool)
    → w.flusher ≢ stopped
    → (round (then_flush r w (flush_of realtime) flushed).1).buffered ≡ []
unfolding then_flush flush_of flush
then_flush-round r w true h =
    round-empty (record w { sink = w.sink ++ w.buffered; buffered = [] }) refl
then_flush-round r w false h = round-scheduled (record w { has_token = true }) h refl

write_all-flusher :
    (w : TtlBufWriter) (buf : Bytes) (n : ℕ) → (write_all w buf (taken n)).1.flusher ≡ w.flusher
unfolding write_all pass_on hold
write_all-flusher w buf n = refl

-- A write that is to be flushed at the time to live, or at once with success, and whose bytes are
-- taken, goes out in whole, behind all that was held back before it: after the next round of a
-- flusher that runs, whatever the flusher was about, if the flush succeeds.
pub write-goes_out :
    {w : TtlBufWriter} {log : Bytes} (buf : Bytes) (realtime : Bool) (n : ℕ)
    → Run w log
    → w.flusher ≢ stopped
    → (round (write w buf (flush_of realtime) (taken n) flushed).1).sink ≡ log ++ buf
unfolding write accepted
write-goes_out {w = w} buf realtime n r h =
    let x = write_all w buf (taken n) in
    let d = (then_flush x.0 x.1 (flush_of realtime) flushed).1 in
    sink-stream (round d)
      (then_flush-round x.0 x.1 realtime (λ e. h (sym (write_all-flusher w buf n) ∙ e)))
    ∙ stream-round d
    ∙ Run-stream (writes buf (flush_of realtime) (taken n) flushed r)
