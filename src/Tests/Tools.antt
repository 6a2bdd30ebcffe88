-- ===== src/Tests/Tools.antt =====
-- A topic broker, a buffered writer and a cursor at work.
use busrt.Tools.TopicBroker.{get_handler}
use busrt.Tools.TopicBroker.{register_prefix_tx_with_handler_id}
use busrt.Tools.TopicBroker.{register_topic_tx_with_handler_id}
use busrt.Tools.TtlBufWriter.{accepted, flush_of}
use busrt.Protocol.Codes.{publish_kind}
use busrt.Protocol.Frame.{FrameData}
use busrt.Protocol.Name.{starts_with}
use busrt.Tools.TopicBroker.{TopicBroker, Publication, sent, process, subtopic}
use busrt.Tools.TopicBroker.Shortest.{
  here, there, Registered, empty, topic_added, prefix_added, process-shortest,
}
use busrt.Tools.TtlBufWriter.{TtlBufWriter, new, no, taken, flushed, write}
use busrt.Tools.TtlBufWriter.Stream.{Run, begins, writes, round, write-goes_out}
use busrt.Tools.Cursors.{Map, add, new_meta}
use busrt.Rpc.Error.{RpcResult, succeeded}
use busrt.Base.{
  ℕ, zero, suc, ◌≤◌, ◌≡◌, refl, Bool, true, false, none, some, [], ◌∷◌, ◌++◌, arith, Bytes, codes,
  length,
}

abbrev publication : FrameData
publication = record {
  kind = publish_kind;
  sender = some (codes "me");
  topic = some (codes "abc");
  header = none;
  buf = [];
  payload_pos = 0;
  is_realtime = false;
}

abbrev topics : TopicBroker
topics = record {
  prefixes = (codes "a", (1, 0)) ∷ (codes "ab", (2, 7)) ∷ [];
  topics = (codes "x", (3, 0)) ∷ [];
}

registered : Registered topics
unfolding register_topic_tx_with_handler_id register_prefix_tx_with_handler_id
registered =
    prefix_added (codes "a") 0 1 refl
      (prefix_added (codes "ab") 7 2 refl (topic_added (codes "x") 0 3 refl empty))

process-shortest_example :
    (p : Bytes) × (tx : ℕ) × (out : Publication) × (rest : Bytes) × (process topics publication
      ≡ sent tx out)
    × (starts_with p (codes "abc") ≡ true)
    × (length p ≤ 2)
    × (subtopic out ≡ some rest)
    × (p ++ rest ≡ codes "abc")
unfolding get_handler starts_with
process-shortest_example =
    process-shortest publication (codes "abc") (codes "ab") registered refl refl (there here) refl

abbrev written : TtlBufWriter
written = (write new (1 ∷ 2 ∷ []) no (taken 1) flushed).1

written-Run : Run written (1 ∷ 2 ∷ [])
unfolding accepted
written-Run = writes (1 ∷ 2 ∷ []) no (taken 1) flushed begins

write-goes_out_example :
    (round (write written (3 ∷ []) (flush_of false) (taken 0) flushed).1).sink ≡ 1 ∷ 2 ∷ 3 ∷ []
unfolding write
write-goes_out_example = write-goes_out (3 ∷ []) false 0 written-Run (λ e. ground arith)

-- A cursor that counts down.
abbrev countdown : ℕ → RpcResult ℕ × ℕ × Bool
countdown zero = (succeeded 0, 0, true)
countdown (suc n) = (succeeded (suc n), n, false)

abbrev cursors : Map ℕ
cursors = add 7 (new_meta 100 10) 2 []
