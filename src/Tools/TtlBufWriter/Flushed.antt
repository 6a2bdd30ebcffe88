-- ===== src/Tools/TtlBufWriter/Flushed.antt =====
-- What the buffered writer has to have passed on, by the flushes that were asked for.
use busrt.Tools.TtlBufWriter.{
  Flush, scheduled, instant, sleeping, TtlBufWriter, new, WriteAll, FlushEnd, flushed, stuck,
  accepted, write, take_token, expire, drop_writer,
}
use busrt.Tools.TtlBufWriter.Stream.{stream}
use busrt.Base.{ℕ, ◌≤◌, ◌≡◌, ◌≢◌, ◌⊎◌, true, false, [], ◌++◌, Bytes, length}

-- How far the bytes that were taken, `n` with those of this write, are sure to have gone out
-- after it, and how far they are to go out.
abbrev pub out_after : Flush → FlushEnd → ℕ → ℕ → ℕ
out_after instant flushed n out = n
out_after _ f n out = out

abbrev pub due_after : Flush → FlushEnd → ℕ → ℕ → ℕ
due_after scheduled f n due = n
due_after instant flushed n due = n
due_after _ f n due = due

-- The same after a flush of the flusher or of the drop: one that fails is given up.
abbrev pub out_flushed : FlushEnd → ℕ → ℕ → ℕ
out_flushed flushed n out = n
out_flushed (stuck e k) n out = out

abbrev pub due_flushed : FlushEnd → ℕ → ℕ → ℕ
due_flushed flushed due out = due
due_flushed (stuck e k) due out = out

-- The writer after some calls and some rounds of its flusher, with the bytes that it took, how many
-- of them are to go out, and how many are sure to have gone out.
pub data Run : TtlBufWriter → Bytes → ℕ → ℕ → Type 0 where
  begins : Run new [] 0 0
  writes :
      {w : TtlBufWriter} {log : Bytes} {due out : ℕ} (buf : Bytes) (fl : Flush) (a : WriteAll)
      (f : FlushEnd)
      → Run w log due out
      → Run
          (write w buf fl a f).1
          (log ++ accepted buf a)
          (due_after fl f (length (log ++ accepted buf a)) due)
          (out_after fl f (length (log ++ accepted buf a)) out)
  wakes :
      {w : TtlBufWriter} {log : Bytes} {due out : ℕ}
      → Run w log due out
      → Run (take_token w) log due out
  expires :
      {w : TtlBufWriter} {log : Bytes} {due out : ℕ} (f : FlushEnd)
      → w.flusher ≡ sleeping
      → Run w log due out
      → Run (expire w f) log (due_flushed f due out) (out_flushed f (length log) out)
  drops :
      {w : TtlBufWriter} {log : Bytes} {due out : ℕ} (f : FlushEnd)
      → Run w log due out
      → Run (drop_writer w f) log (due_flushed f due out) (out_flushed f (length log) out)

abbrev IsPending : TtlBufWriter → ℕ → Type 0
IsPending w due = (w.has_token ≡ true) ⊎ ((w.flusher ≡ sleeping) ⊎ (due ≤ length w.sink))

-- What is due has gone out, or the flusher is on its way to it.
record IsSafe (w : TtlBufWriter) (log : Bytes) (due out : ℕ) : Type 0 where
  same : stream w ≡ log
  sure : out ≤ length w.sink
  bound : due ≤ length log
  pending : IsPending w due

-- A flusher that has no token to take and does not wait for its time
abbrev pub IsQuiet : TtlBufWriter → Type 0
IsQuiet w = (w.has_token ≡ false) × (w.flusher ≢ sleeping)
