-- ===== src/Protocol/Outcome.antt =====
-- How an operation on shared state goes: src/broker.rs, `safe_send_frame!` and what calls it.
use busrt.Protocol.Error.{Error}

-- An operation of the broker ends, or leaves the function that it stands in with an error, by the
-- `?` in a macro, or waits for ever: for room in the queue of an internal client, or for a lock
-- that its own task holds.
pub data Outcome (D A : Type 0) : Type 0 where
  done : A → D → Outcome D A
  returned : Error → D → Outcome D A
  waiting : Outcome D A
  deadlock : Outcome D A

infixl 5 ◌>>=◌
abbrev pub ◌>>=◌ : {D A B : Type 0} → Outcome D A → (A → D → Outcome D B) → Outcome D B
done a d >>= f = f a d
returned e d >>= f = returned e d
waiting >>= f = waiting
deadlock >>= f = deadlock
