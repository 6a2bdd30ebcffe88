-- ===== src/Tools/TopicBroker.antt =====
-- src/tools/pubsub.rs: `TopicBroker`, which hands publications to channels by topic and by prefix.
-- A channel is its number; whether it takes a publication, or is closed, is given.
pub mod Shortest
use busrt.Protocol.Error.{Result, ok, err, Error, busy, eof, error_bare, error_of, lit}
use busrt.Protocol.Frame.{FrameData}
use busrt.Protocol.Name.{starts_with}
use busrt.Wire.Order.{Order, before, same, after, order}
use busrt.Base.{
  Table, get, put, del, get-del, get-del_other, get-put, get-put_other, byte_at, ℕ, zero, suc, ◌+◌,
  ◌-◌, ◌*◌, ◌/◌, ◌%◌, ◌^◌, ◌≤◌, ◌<◌, bit_and, bit_or, String, ◌≡◌, refl, sym, ap, ◌∙◌, subst, ◌≢◌,
  ◌↔◌, ◌⊎◌, inl, inr, Bool, true, false, not, ◌&&◌, ◌||◌, Option, none, some, List, [], ◌∷◌, ◌++◌,
  map, append-nil, append_assoc, arith, ltb, leb, ◌==◌, if◌then◌else◌, ltb→lt, lt→ltb, leb→le,
  le→leb, lt→leb, le→ltb, ==_iff, Bool-cases, Option-cases, Bytes, codes, bytes_eq, bytes_eq_iff,
  length, take, drop, is_empty, length-append, length-drop, take-append, drop-append, slice_from,
  slice,
}

-- `BTreeMap<String, (PublicationSender, usize)>`: in the order of the keys' bytes.
abbrev pub Handlers : Type 0
Handlers = List (Bytes × (ℕ × ℕ))

pub record TopicBroker : Type 0 where
  pub prefixes : Handlers
  pub topics : Handlers

pub record Publication : Type 0 where
  pub subtopic_pos : ℕ
  pub frame : FrameData
  pub handler_id : ℕ

unfoldable pub get_handler : Bytes → Handlers → Option (ℕ × ℕ)
unfolding bytes_eq
get_handler k [] = none
get_handler k ((k', h) ∷ rest) =
    let more = get_handler k rest in if bytes_eq k k' then some h else more

unfoldable pub insert_by : Order → Bytes → ℕ × ℕ → Bytes → ℕ × ℕ → Handlers → Handlers → Handlers
insert_by before k h k' h' rest more = (k, h) ∷ (k', h') ∷ rest
insert_by same k h k' h' rest more = (k, h) ∷ rest
insert_by after k h k' h' rest more = (k', h') ∷ more

-- `insert` in a BTreeMap
unfoldable pub insert : Bytes → ℕ × ℕ → Handlers → Handlers
unfolding order insert_by
insert k h [] = (k, h) ∷ []
insert k h ((k', h') ∷ rest) =
    let more = insert k h rest in insert_by (order k k') k h k' h' rest more

unfoldable pub register : String → Bytes → ℕ × ℕ → Handlers → Result Handlers
unfolding get_handler insert
register text k h m = elim (get_handler k m) [
  | none ↦ ok (insert k h m)
  | some _ ↦ err (error_of busy (lit text ∷ []))
]

module _ (b : TopicBroker) where
  unfoldable pub with_topics : Result Handlers → Result TopicBroker
  with_topics (ok t) = ok (record b { topics = t })
  with_topics (err e) = err e

  unfoldable pub with_prefixes : Result Handlers → Result TopicBroker
  with_prefixes (ok p) = ok (record b { prefixes = p })
  with_prefixes (err e) = err e

  unfoldable pub register_topic_tx_with_handler_id : Bytes → ℕ → ℕ → Result TopicBroker
  unfolding with_topics register
  register_topic_tx_with_handler_id topic handler_id tx =
      with_topics (register "topic already registered" topic (tx, handler_id) b.topics)

  unfoldable pub register_topic_tx : Bytes → ℕ → Result TopicBroker
  unfolding register_topic_tx_with_handler_id
  register_topic_tx topic tx = register_topic_tx_with_handler_id topic 0 tx

  unfoldable pub register_prefix_tx_with_handler_id : Bytes → ℕ → ℕ → Result TopicBroker
  unfolding with_prefixes register
  register_prefix_tx_with_handler_id prefix handler_id tx =
      with_prefixes (register "topic prefix already registered" prefix (tx, handler_id) b.prefixes)

  unfoldable pub register_prefix_tx : Bytes → ℕ → Result TopicBroker
  unfolding register_prefix_tx_with_handler_id
  register_prefix_tx prefix tx = register_prefix_tx_with_handler_id prefix 0 tx

-- `for (pfx, …) in &self.prefixes { if topic.starts_with(pfx) { … } }`
unfoldable pub first_prefix : Bytes → Handlers → Option (Bytes × (ℕ × ℕ))
unfolding starts_with
first_prefix topic [] = none
first_prefix topic ((pfx, h) ∷ rest) =
    let more = first_prefix topic rest in if starts_with pfx topic then some (pfx, h) else more

-- `Publication::subtopic`; `none` is a panic.
unfoldable pub subtopic : Publication → Option Bytes
subtopic p = elim p.frame.topic [ none ↦ none | some topic ↦ slice_from p.subtopic_pos topic ]

-- What becomes of a frame: it comes back, or a publication goes out on a channel.
pub data Processed : Type 0 where
  returned : FrameData → Processed
  sent : ℕ → Publication → Processed

module _ (b : TopicBroker) (frame : FrameData) where
  unfoldable pub by_prefix : Option (Bytes × (ℕ × ℕ)) → Processed
  by_prefix (some (pfx, (tx, handler_id))) =
      sent tx (record { subtopic_pos = length pfx; frame = frame; handler_id = handler_id })
  by_prefix none = returned frame

  unfoldable pub by_topic : Bytes → Option (ℕ × ℕ) → Processed
  unfolding by_prefix first_prefix
  by_topic topic (some (tx, handler_id)) =
      sent tx (record { subtopic_pos = 0; frame = frame; handler_id = handler_id })
  by_topic topic none = by_prefix (first_prefix topic b.prefixes)

  unfoldable pub route : Option Bytes → Processed
  unfolding by_topic get_handler
  route none = returned frame
  route (some topic) = by_topic topic (get_handler topic b.topics)

  -- `process`, but for the sending itself
  unfoldable pub process : Processed
  unfolding route
  process = route frame.topic

-- `tx.send(…).await?`, and what `process` answers
unfoldable pub answer : (ℕ → Bool) → Processed → Result (Option FrameData)
answer takes (returned f) = ok (some f)
answer takes (sent tx p) = if takes tx then ok none else err (error_bare eof)
