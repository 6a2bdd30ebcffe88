-- ===== src/Protocol/Talk.antt =====
-- A conversation of a task over a connection: it writes, reads and calls into the state that it
-- shares with other tasks. A write, a read or a timeout that fails ends it with the error, as `?`
-- does.
use busrt.Wire.Source.{before, read_exact-before, Source, Read, got, ended, read_exact}
use busrt.Protocol.Error.{Result, ok, err, Error, read_error}
use busrt.Protocol.Outcome.{Outcome, done, returned, waiting, deadlock}
use busrt.Base.{ℕ, suc, ◌≡◌, [], ◌++◌, Bytes, length}

pub data Talk (S A : Type 0) : Type 0 where
  finish : A → Talk S A
  fail : Error → Talk S A
  say : Bytes → Talk S A → Talk S A
  hear : ℕ → (Bytes → Talk S A) → Talk S A
  share : (S → Outcome S (Result (Unit {0}))) → (Result (Unit {0}) → Talk S A) → Talk S A

infixl 5 ◌>>=◌
abbrev pub ◌>>=◌ : {S A B : Type 0} → Talk S A → (A → Talk S B) → Talk S B
finish a >>= f = f a
fail e >>= f = fail e
say b t >>= f = say b (t >>= f)
hear n k >>= f = hear n (λ b. k b >>= f)
share c k >>= f = share c (λ r. k r >>= f)

module _ {S : Type 0} where
  abbrev pub write : Bytes → Talk S (Unit {0})
  write b = say b (finish tt)

  abbrev pub read : ℕ → Talk S Bytes
  read n = hear n finish

  abbrev pub call : (S → Outcome S (Result (Unit {0}))) → Talk S (Result (Unit {0}))
  call c = share c finish

  -- `?`
  abbrev pub lift : {A : Type 0} → Result A → Talk S A
  lift (ok a) = finish a
  lift (err e) = fail e

-- The two directions of a connection: what comes in, and how each write from now on goes.
pub record Line : Type 0 where
  pub incoming : Source
  pub takes : ℕ → Result (Unit {0})

-- What was written in whole, and how it ended. Of a failed write a part may have gone out.
pub record Ran (S A : Type 0) : Type 0 where
  pub written : Bytes
  pub outcome : Outcome S (A × Line)

unfoldable pub after_write : {S A : Type 0} → Bytes → S → Result (Unit {0}) → Ran S A → Ran S A
after_write b s (ok _) r = record { written = b ++ r.written; outcome = r.outcome }
after_write b s (err e) r = record { written = []; outcome = returned e s }

unfoldable pub after_read : {S A : Type 0} → S → (Bytes → Source → Ran S A) → Read Bytes → Ran S A
after_read s next (got b rest) = next b rest
after_read s next (ended t) = record { written = []; outcome = returned (read_error t) s }

unfoldable pub after_call : {S A B : Type 0} → (B → S → Ran S A) → Outcome S B → Ran S A
after_call next (done r d) = next r d
after_call next (returned e d) = record { written = []; outcome = returned e d }
after_call next waiting = record { written = []; outcome = waiting }
after_call next deadlock = record { written = []; outcome = deadlock }

unfoldable pub run : {S A : Type 0} → Talk S A → Line → S → Ran S A
unfolding after_write after_read after_call read_exact
run (finish a) l s = record { written = []; outcome = done (a, l) s }
run (fail e) l s = record { written = []; outcome = returned e s }
run (say b t) l s =
    after_write b s (l.takes 0) (run t (record l { takes = λ n. l.takes (suc n) }) s)
run (hear n k) l s =
    after_read s (λ b rest. run (k b) (record l { incoming = rest }) s) (read_exact n l.incoming)
run (share c k) l s = after_call (λ r d. run (k r) l d) (c s)

-- A connection that takes every write, with these bytes still to come.
abbrev pub open_line : Source → Line
open_line s = record { incoming = s; takes = λ n. ok tt }

abbrev pub line : Source → (ℕ → Result (Unit {0})) → Line
line s takes = record { incoming = s; takes = takes }

pub run-hear :
    {S A : Type 0} (n : ℕ) (k : Bytes → Talk S A) (b : Bytes) (rest : Source)
    (takes : ℕ → Result (Unit {0})) (s : S)
    → n ≡ length b
    → run (hear n k) (line (before b rest) takes) s ≡ run (k b) (line rest takes) s
unfolding run
run-hear n k b rest takes s e = rw (read_exact-before n b rest e, run)
