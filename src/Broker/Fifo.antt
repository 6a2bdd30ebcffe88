-- ===== src/Broker/Fifo.antt =====
-- src/broker.rs: `send_fifo_cmd`, a line of the fifo, up to the call of the RPC client that it asks
-- for; src/common.rs: `str_to_params_map`. The trimming of a line and the numbers that `parse` accepts
-- are the library's, and given.
pub mod Lines
use busrt.Protocol.Error.{
  Result, ok, err, ◌>>=◌, ok_or, Error, invalid, not_supported, error_of, lit,
}
use busrt.Broker.Maps.{remove}
use busrt.Base.{
  Table, get, put, del, get-del, get-del_other, get-put, get-put_other, byte_at, ℕ, zero, suc, ◌+◌,
  ◌-◌, ◌*◌, ◌/◌, ◌%◌, ◌^◌, ◌≤◌, ◌<◌, bit_and, bit_or, String, ◌≡◌, refl, sym, ap, ◌∙◌, subst, ◌≢◌,
  ◌↔◌, ◌⊎◌, inl, inr, Bool, true, false, not, ◌&&◌, ◌||◌, Option, none, some, List, [], ◌∷◌, ◌++◌,
  map, append-nil, append_assoc, arith, ltb, leb, ◌==◌, if◌then◌else◌, ltb→lt, lt→ltb, leb→le,
  le→leb, lt→leb, le→ltb, ==_iff, Bool-cases, Option-cases, Bytes, codes, bytes_eq, bytes_eq_iff,
  length, take, drop, is_empty, length-append, length-drop, take-append, drop-append, slice_from,
  slice,
}

abbrev pub push_head : ℕ → List Bytes → List Bytes
push_head c [] = (c ∷ []) ∷ []
push_head c (p ∷ ps) = (c ∷ p) ∷ ps

-- `split(c)` of a text: all parts, one more than there are separators.
unfoldable pub split : ℕ → Bytes → List Bytes
split c [] = [] ∷ []
split c (b ∷ bs) = let rest = split c bs in if b == c then [] ∷ rest else push_head b rest

unfoldable pub strip_prefix : ℕ → Bytes → Option Bytes
strip_prefix c [] = none
strip_prefix c (b ∷ bs) = if b == c then some bs else none

-- `contains(&['*', '?'])`
unfoldable pub is_mask : Bytes → Bool
is_mask [] = false
is_mask (b ∷ bs) = let more = is_mask bs in b == b'*' || b == b'?' || more

-- `serde_value::Value`, as far as parameters are of it.
pub data Value (I F : Type 0) : Type 0 where
  bool_value : Bool → Value I F
  i64_value : I → Value I F
  f64_value : F → Value I F
  string_value : Bytes → Value I F

-- The HashMap of parameters
abbrev pub Params : Type 0 → Type 0 → Type 0
Params I F = List (Bytes × Value I F)

-- What a line asks the RPC client for.
pub data Command (I F : Type 0) : Type 0 where
  publish notify send_broadcast send : Bytes → Bytes → Command I F
  call0 : Bytes → Bytes → Params I F → Command I F

unfoldable pub next : List Bytes → String → Result (Bytes × List Bytes)
next [] text = err (error_of invalid (lit text ∷ []))
next (p ∷ ps) text = ok (p, ps)

module _ {I F : Type 0} (parse_i64 : Bytes → Option I) (parse_f64 : Bytes → Option F) where
  number_of : Bytes → Option I → Option F → Value I F
  number_of v (some i) f = i64_value i
  number_of v none (some f) = f64_value f
  number_of v none none = string_value v

  unfoldable pub value_of : Bytes → Value I F
  unfolding number_of
  value_of v =
      if bytes_eq v (codes "false")
      then bool_value false
      else if bytes_eq v (codes "true")
      then bool_value true
      else number_of v (parse_i64 v) (parse_f64 v)

  unfoldable pub insert : Bytes → Value I F → Params I F → Params I F
  unfolding remove
  insert k v params = (k, v) ∷ remove k params

  unfoldable pub insert_pair : Bytes → Params I F → Result (Params I F)
  unfolding next value_of insert split
  insert_pair pair params = do
    (var, psp) ← next (split b'=' pair) "var name not specified"
    (v, _) ← next psp "var value not specified"
    ok (insert var (value_of v) params)

  unfoldable pub add_params : List Bytes → Params I F → Result (Params I F)
  unfolding insert_pair
  add_params [] params = ok params
  add_params (pair ∷ s) params =
      if is_empty pair
      then add_params s params
      else insert_pair pair params >>= (λ p. add_params s p)

  unfoldable pub str_to_params_map : List Bytes → Result (Params I F)
  unfolding add_params
  str_to_params_map s = add_params s []

  unfoldable pub by_payload : Bytes → Bytes → List Bytes → Result (Command I F)
  unfolding strip_prefix is_mask str_to_params_map
  by_payload target payload sp = elim (strip_prefix b'.' payload) [
    | some s ↦ ok (notify target s)
    | none ↦ elim (strip_prefix b':' payload) [
      | some method ↦ str_to_params_map sp >>= (λ params. ok (call0 target method params))
      | none ↦
          if is_mask target then ok (send_broadcast target payload) else ok (send target payload)
    ]
  ]

  unfoldable pub to_target : Bytes → Result (Command I F)
  unfolding next by_payload split
  to_target line = do
    (target, sp) ← next (split b' ' line) "target not specified"
    (payload, sp) ← next sp "payload not specified"
    by_payload target payload sp

  to_topic : Bytes → Result (Command I F)
  unfolding next split
  to_topic s = do
    (topic, sp) ← next (split b' ' s) "topic not specified"
    (payload, _) ← next sp "payload not specified"
    ok (publish topic payload)

  unfoldable pub by_prefix : Bytes → Option Bytes → Result (Command I F)
  unfolding to_target to_topic
  by_prefix line (some s) = to_topic s
  by_prefix line none = to_target line

  -- With the broker's RPC client there or not.
  unfoldable pub send_fifo_cmd : (Bytes → Bytes) → Bool → Bytes → Result (Command I F)
  unfolding by_prefix strip_prefix
  send_fifo_cmd trim has_rpc line =
      if has_rpc
      then by_prefix line (strip_prefix b'=' (trim line))
      else err (error_of not_supported (lit "broker core RPC client not initialized" ∷ []))
