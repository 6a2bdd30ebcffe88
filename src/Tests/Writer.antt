-- ===== src/Tests/Writer.antt =====
-- The buffered writer at concrete inputs: a write that is not to be flushed, one that is, and a round
-- of the flusher.
use busrt.Tools.TtlBufWriter.{
  no, scheduled, TtlBufWriter, new, taken, flushed, write, take_token, expire,
}
use busrt.Base.{[], ◌∷◌}

abbrev first : TtlBufWriter
first = (write new (1 ∷ 2 ∷ []) no (taken 1) flushed).1

abbrev second : TtlBufWriter
second = (write first (3 ∷ []) scheduled (taken 0) flushed).1

abbrev after_round : TtlBufWriter
after_round = expire (take_token second) flushed
