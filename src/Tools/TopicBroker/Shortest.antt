-- ===== src/Tools/TopicBroker/Shortest.antt =====
-- A topic broker hands a publication to its topic, or else to its shortest prefix.
use busrt.Protocol.Error.{ok}
use busrt.Protocol.Frame.{FrameData}
use busrt.Protocol.Name.{starts_with}
use busrt.Wire.Order.{
  Order, before, same, after, order, order-flip, order-same, order-asym, order_trans,
}
use busrt.Tools.TopicBroker.{
  Handlers, TopicBroker, Publication, get_handler, insert_by, insert, register, with_prefixes,
  with_topics, register_topic_tx_with_handler_id, register_prefix_tx_with_handler_id, first_prefix,
  subtopic, sent, by_prefix, by_topic, route, process,
}
use busrt.Base.{
  ℕ, ◌≤◌, ◌<◌, String, ◌≡◌, refl, sym, ap, ◌∙◌, subst, inl, inr, true, false, none, some, [], ◌∷◌,
  ◌++◌, arith, ltb, ltb→lt, le→leb, Bool-cases, Bytes, length, drop,
}

-- The keys of a BTreeMap stand in ascending order.
abbrev pub IsBelow : Bytes → Handlers → Type 0
IsBelow k [] = Unit {0}
IsBelow k ((k', h) ∷ rest) = (order k k' ≡ before) × IsBelow k rest

abbrev pub IsSorted : Handlers → Type 0
IsSorted [] = Unit {0}
IsSorted ((k, h) ∷ rest) = IsBelow k rest × IsSorted rest

IsBelow-trans : (j k : Bytes) (m : Handlers) → order j k ≡ before → IsBelow k m → IsBelow j m
IsBelow-trans j k [] o h = tt
IsBelow-trans j k ((k', v) ∷ rest) o h = (order_trans j k k' o h.0, IsBelow-trans j k rest o h.1)

insert-IsBelow :
    (j k : Bytes) (v : ℕ × ℕ) (m : Handlers)
    → order j k ≡ before
    → IsBelow j m
    → IsBelow j (insert k v m)
unfolding insert
insert-IsBelow j k v [] o h = (o, tt)
insert-IsBelow j k v ((k', w) ∷ rest) o h = placed (order k k') (insert-IsBelow j k v rest o h.1)
  where
    placed :
        (p : Order)
        → IsBelow j (insert k v rest)
        → IsBelow j (insert_by p k v k' w rest (insert k v rest))
    placed before more = (o, h)
    placed same more = (o, h.1)
    placed after more = (h.0, more)

insert-IsSorted : (k : Bytes) (v : ℕ × ℕ) (m : Handlers) → IsSorted m → IsSorted (insert k v m)
unfolding insert
insert-IsSorted k v [] s = (tt, tt)
insert-IsSorted k v ((k', w) ∷ rest) s = placed (order k k') refl (insert-IsSorted k v rest s.1)
  where
    placed :
        (p : Order)
        → order k k' ≡ p
        → IsSorted (insert k v rest)
        → IsSorted (insert_by p k v k' w rest (insert k v rest))
    placed before e more = ((e, IsBelow-trans k k' rest e s.0), s)
    placed same e more = (subst (λ x. IsBelow x rest) (sym (order-same k k' e)) s.0, s.1)
    placed after e more = (insert-IsBelow k' k v rest (order-flip k k' e) s.0, more)

-- A longer one of two prefixes of the same text stands behind the shorter one.
order-prefixes :
    (p q text : Bytes)
    → starts_with p text ≡ true
    → starts_with q text ≡ true
    → length q < length p
    → order q p ≡ before
unfolding order starts_with
order-prefixes [] q text hp hq l = absurd (omega arith)
order-prefixes (x ∷ p) [] text hp hq l = refl
order-prefixes (x ∷ p) (y ∷ q) [] hp hq l = absurd (ground arith)
order-prefixes (x ∷ p) (y ∷ q) (c ∷ text) hp hq l = ground (arith, order-prefixes p q text)

-- A key of the map
pub data IsIn (q : Bytes) : Handlers → Type 0 where
  here : {h : ℕ × ℕ} {rest : Handlers} → IsIn q ((q, h) ∷ rest)
  there : {k : Bytes} {h : ℕ × ℕ} {rest : Handlers} → IsIn q rest → IsIn q ((k, h) ∷ rest)

IsBelow-IsIn : (k q : Bytes) (m : Handlers) → IsBelow k m → IsIn q m → order k q ≡ before
IsBelow-IsIn k q _ h here = h.0
IsBelow-IsIn k q _ h (there {rest = rest} i) = IsBelow-IsIn k q rest h.1 i

below-length :
    (k q topic : Bytes)
    → order k q ≡ before
    → starts_with k topic ≡ true
    → starts_with q topic ≡ true
    → length k ≤ length q
below-length k q topic o e f = elim (Bool-cases (ltb (length q) (length k))) [
  | inl l ↦
      absurd (order-asym k q o (order-prefixes k q topic e f (ltb→lt (length q) (length k) l)))
  | inr l ↦ ground (arith, l)
]

head-length :
    (topic k q : Bytes) (h : ℕ × ℕ) (rest : Handlers)
    → IsBelow k rest
    → IsIn q ((k, h) ∷ rest)
    → starts_with k topic ≡ true
    → starts_with q topic ≡ true
    → length k ≤ length q
head-length topic k _ h rest s here e f = omega arith
head-length topic k q h rest s (there i) e f =
    below-length k q topic (IsBelow-IsIn k q rest s i) e f

-- What `first_prefix-shortest` says of a list.
HasShortest : Bytes → Bytes → Handlers → Type 0
HasShortest topic q m =
    (p : Bytes) × (h : ℕ × ℕ) × (first_prefix topic m ≡ some (p, h))
    × (starts_with p topic ≡ true)
    × (length p ≤ length q)

passed_over :
    (topic q k : Bytes) (v : ℕ × ℕ) (rest : Handlers)
    → starts_with k topic ≡ false
    → HasShortest topic q rest
    → HasShortest topic q ((k, v) ∷ rest)
unfolding HasShortest first_prefix
passed_over topic q k v rest e (p, h, g, s, l) = (p, h, rw (e, first_prefix) g, s, l)

behind :
    (topic q k : Bytes) (v : ℕ × ℕ) (rest : Handlers)
    → starts_with q topic ≡ true
    → starts_with k topic ≡ false
    → IsIn q ((k, v) ∷ rest)
    → IsIn q rest
behind topic q _ v rest f e here = absurd (ground arith)
behind topic q k v rest f e (there j) = j

-- The first prefix that fits is there if any fits, and no shorter one fits.
first_prefix-shortest :
    (topic q : Bytes) (m : Handlers)
    → IsSorted m
    → IsIn q m
    → starts_with q topic ≡ true
    → HasShortest topic q m
unfolding first_prefix HasShortest
first_prefix-shortest topic q [] s i f = elim i [ ]
first_prefix-shortest topic q ((k, v) ∷ rest) s i f = elim (Bool-cases (starts_with k topic)) [
  | inl e ↦ (k, v, rw (e, first_prefix) refl, e, head-length topic k q v rest s.0 i e f)
  | inr e ↦
      passed_over topic q k v rest e
        (first_prefix-shortest topic q rest s.1 (behind topic q k v rest f e i) f)
]

-- A broker whose maps are in order, as `register_…` leaves them.
pub data Registered : TopicBroker → Type 0 where
  empty : Registered (record { prefixes = []; topics = [] })
  topic_added :
      {b d : TopicBroker} (topic : Bytes) (handler_id tx : ℕ)
      → register_topic_tx_with_handler_id b topic handler_id tx ≡ ok d
      → Registered b
      → Registered d
  prefix_added :
      {b d : TopicBroker} (prefix : Bytes) (handler_id tx : ℕ)
      → register_prefix_tx_with_handler_id b prefix handler_id tx ≡ ok d
      → Registered b
      → Registered d

prefixes-topic_added :
    (b d : TopicBroker) (text : String) (k : Bytes) (v : ℕ × ℕ)
    → with_topics b (register text k v b.topics) ≡ ok d
    → d.prefixes ≡ b.prefixes
unfolding with_topics register
prefixes-topic_added b d text k v e = ground arith

prefixes-prefix_added :
    (b d : TopicBroker) (text : String) (k : Bytes) (v : ℕ × ℕ)
    → with_prefixes b (register text k v b.prefixes) ≡ ok d
    → d.prefixes ≡ insert k v b.prefixes
unfolding with_prefixes register
prefixes-prefix_added b d text k v e = ground arith

Registered-IsSorted : {b : TopicBroker} → Registered b → IsSorted b.prefixes
unfolding register_topic_tx_with_handler_id register_prefix_tx_with_handler_id
Registered-IsSorted empty = tt
Registered-IsSorted (topic_added {b = b} {d = d} topic handler_id tx e r) =
    subst IsSorted
      (sym (prefixes-topic_added b d "topic already registered" topic (tx, handler_id) e))
      (Registered-IsSorted r)
Registered-IsSorted (prefix_added {b = b} {d = d} prefix handler_id tx e r) =
    subst IsSorted
      (sym (prefixes-prefix_added b d "topic prefix already registered" prefix (tx, handler_id) e))
      (insert-IsSorted prefix (tx, handler_id) b.prefixes (Registered-IsSorted r))

starts_with-length : (p text : Bytes) → starts_with p text ≡ true → length p ≤ length text
unfolding starts_with
starts_with-length [] text h = omega arith
starts_with-length (x ∷ p) [] h = absurd (ground arith)
starts_with-length (x ∷ p) (c ∷ text) h = ground (arith, starts_with-length p text)

starts_with-drop : (p text : Bytes) → starts_with p text ≡ true → p ++ drop (length p) text ≡ text
unfolding starts_with
starts_with-drop [] text h = refl
starts_with-drop (x ∷ p) [] h = absurd (ground arith)
starts_with-drop (x ∷ p) (c ∷ text) h = ground (arith, starts_with-drop p text)

-- In a topic broker, however its topics and prefixes were registered, a frame with a topic that is
-- not registered itself, and that some registered prefix fits, goes out as one publication, by a
-- prefix that fits; no prefix that fits is shorter, whatever the order in which they were
-- registered; and the publication's subtopic is what follows this prefix in the topic.
pub process-shortest :
    {b : TopicBroker} (frame : FrameData) (topic q : Bytes)
    → Registered b
    → frame.topic ≡ some topic
    → get_handler topic b.topics ≡ none
    → IsIn q b.prefixes
    → starts_with q topic ≡ true
    → (p : Bytes) × (tx : ℕ) × (out : Publication) × (rest : Bytes) × (process b frame
        ≡ sent tx out)
      × (starts_with p topic ≡ true)
      × (length p ≤ length q)
      × (subtopic out ≡ some rest)
      × (p ++ rest ≡ topic)
unfolding process route by_topic by_prefix subtopic HasShortest
process-shortest {b = b} frame topic q r e n i f =
    let (p, h, g, s, l) = first_prefix-shortest topic q b.prefixes (Registered-IsSorted r) i f in
    (
      p,
      h.0,
      record { subtopic_pos = length p; frame = frame; handler_id = h.1 },
      drop (length p) topic,
      ap (route b frame) e ∙ rw (n, g) refl,
      s,
      l,
      rw (e, le→leb (length p) (length topic) (starts_with-length p topic s)) refl,
      starts_with-drop p topic s,
    )

-- A frame with a registered topic goes out to this topic's channel alone, with its handler's id and
-- the whole topic for its subtopic, whatever prefixes fit.
pub process-exact :
    (b : TopicBroker) (frame : FrameData) (topic : Bytes) (tx handler_id : ℕ)
    → frame.topic ≡ some topic
    → get_handler topic b.topics ≡ some (tx, handler_id)
    → (out : Publication) × (process b frame ≡ sent tx out)
      × (out.handler_id ≡ handler_id)
      × (out.frame ≡ frame)
      × (subtopic out ≡ some topic)
unfolding process route by_topic subtopic
process-exact b frame topic tx handler_id e f = (
  record { subtopic_pos = 0; frame = frame; handler_id = handler_id },
  ap (route b frame) e ∙ rw f refl,
  refl,
  refl,
  rw (e, le→leb 0 (length topic) (omega arith)) refl,
)
