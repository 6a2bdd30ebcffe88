-- ===== src/Sync/Connect/Agree.antt =====
-- The synchronous and the asynchronous client connect alike.
use busrt.Wire.Source.{Source, closed, stalled, broken, Read, got, ended, read_exact}
use busrt.Protocol.Error.{Result, ok, err, error_bare, timeout, read_error}
use busrt.Protocol.Outcome.{Outcome, done, returned, waiting, deadlock}
use busrt.Protocol.Talk.{
  Talk, finish, fail, say, hear, share, Line, Ran, run, open_line, after_write, after_read,
  after_call,
}
use busrt.Ipc.Connect
use busrt.Ipc.Connect.{Config, Transport, websocket, unix, tcp, transport_of, Opening}
use busrt.Sync.Connect.{
  Ended, finished, failed, waits, after_blocking_read, after_blocking_write, after_blocking_call,
  run_blocking, chat, open_by, Session, session_of, greet, connect_broker, connect,
}
use busrt.Base.{true, ap, suc, ◌≡◌, refl, ◌≢◌, Option, none, some, Bytes}

-- What a conversation comes to over a blocking socket, and over one with timeouts: the same end, or
-- the former waits where the latter ends with Timeout or waits.
unfoldable pub SameEnd : {A : Type 0} → Ended A → Outcome (Unit {0}) (A × Line) → Type 0
SameEnd (finished a) (done (b, l) s) = a ≡ b
SameEnd (failed x) (returned y s) = x ≡ y
SameEnd waits (returned y s) = y ≡ error_bare timeout
SameEnd waits waiting = Unit {0}
SameEnd waits deadlock = Unit {0}
SameEnd _ _ = ⊥

module _ {A : Type 0} where
  after_write-SameEnd :
      (b : Bytes) (r : Result (Unit {0})) (e : Ended A) (ran : Ran (Unit {0}) A)
      → SameEnd e ran.outcome
      → SameEnd (after_blocking_write r e) (after_write b tt r ran).outcome
  unfolding SameEnd after_blocking_write after_write
  after_write-SameEnd b (ok _) e ran h = h
  after_write-SameEnd b (err x) e ran h = refl

  after_read-SameEnd :
      (r : Read Bytes) (f : Bytes → Source → Ended A) (g : Bytes → Source → Ran (Unit {0}) A)
      → ((b : Bytes) (s : Source) → SameEnd (f b s) (g b s).outcome)
      → SameEnd (after_blocking_read f r) (after_read tt g r).outcome
  unfolding SameEnd after_blocking_read after_read read_error
  after_read-SameEnd (got b s) f g h = h b s
  after_read-SameEnd (ended stalled) f g h = refl
  after_read-SameEnd (ended closed) f g h = refl
  after_read-SameEnd (ended (broken k t)) f g h = refl

  after_call-SameEnd :
      (o : Outcome (Unit {0}) (Result (Unit {0}))) (f : Result (Unit {0}) → Ended A)
      (g : Result (Unit {0}) → Unit {0} → Ran (Unit {0}) A)
      → ((r : Result (Unit {0})) → SameEnd (f r) (g r tt).outcome)
      → SameEnd (after_blocking_call f o) (after_call g o).outcome
  unfolding SameEnd after_blocking_call after_call
  after_call-SameEnd (done r tt) f g h = h r
  after_call-SameEnd (returned e _) f g h = refl
  after_call-SameEnd waiting f g h = tt
  after_call-SameEnd deadlock f g h = tt

  run_blocking-SameEnd :
      (t : Talk (Unit {0}) A) (l : Line) → SameEnd (run_blocking t l) (run t l tt).outcome
  unfolding SameEnd run_blocking run
  run_blocking-SameEnd (finish a) l = refl
  run_blocking-SameEnd (fail e) l = refl
  run_blocking-SameEnd (say b t) l =
      after_write-SameEnd b (l.takes 0) _ _
        (run_blocking-SameEnd t (record l { takes = λ n. l.takes (suc n) }))
  run_blocking-SameEnd (hear n k) l =
      after_read-SameEnd (read_exact n l.incoming) _ _
        (λ b rest. run_blocking-SameEnd (k b) (record l { incoming = rest }))
  run_blocking-SameEnd (share c k) l =
      after_call-SameEnd (c tt) _ _ (λ r. run_blocking-SameEnd (k r) l)

-- How connecting ends
unfoldable pub SameSession : Ended Session → Result Connect.Session → Type 0
SameSession (finished s) (ok t) = s.config ≡ t.config
SameSession (failed x) (err y) = x ≡ y
SameSession waits (err y) = y ≡ error_bare timeout
SameSession _ _ = ⊥

session_of-SameSession :
    (c : Config) (e : Ended (Unit {0})) (o : Outcome (Unit {0}) (Unit {0} × Line))
    → SameEnd e o
    → SameSession (session_of c e) (Connect.session_of c o)
unfolding SameEnd SameSession session_of Connect.session_of
session_of-SameSession c (finished a) (done b s) h = refl
session_of-SameSession c (failed x) (returned y s) h = h
session_of-SameSession c waits (returned y s) h = h
session_of-SameSession c waits waiting h = refl
session_of-SameSession c waits deadlock h = refl
session_of-SameSession c _ _ h = absurd h

greet-SameSession :
    (c : Config) (line : Line) → SameSession (greet c (ok line)) (Connect.greet c (ok line))
unfolding SameSession greet Connect.greet
greet-SameSession c line = session_of-SameSession c _ _ (run_blocking-SameEnd (chat c.name) line)

-- What both clients ask the operating system for
abbrev pub opening_of : Config → Opening
opening_of c = record { transport = transport_of c.path; path = c.path; authorization = none }

by_transport :
    (opens opens_async : Opening → Result Line) (c : Config) (t : Transport) (l : Line)
    → t ≢ websocket
    → opens (record { transport = t; path = c.path; authorization = none }) ≡ ok l
    → opens_async (record { transport = t; path = c.path; authorization = none }) ≡ ok l
    → (e : Ended Session) × ((elim (open_by opens c none t) as (λ _. Option (Ended Session)) [
      | none ↦ none
      | some l ↦ some (greet c l)
    ])
        ≡ some e)
      × SameSession e (Connect.greet c (Connect.open_by opens_async c none t))
unfolding open_by Connect.open_by
by_transport opens opens_async c websocket l h e f = absurd (h refl)
by_transport opens opens_async c unix l h e f =
    (_, ap (λ x. some (greet c x)) e, rw (f) (greet-SameSession c l))
by_transport opens opens_async c tcp l h e f =
    (_, ap (λ x. some (greet c x)) e, rw (f) (greet-SameSession c l))

-- Unless the path is that of a web socket: where both clients get a socket that takes every write,
-- and the broker sends the same to both, to the asynchronous one within its timeout or not at all,
-- the synchronous client connects just as the asynchronous one does: with the same configuration, or
-- with the same error, except that it waits for ever where the asynchronous client ends with Timeout.
pub connect-SameSession :
    (opens opens_async : Opening → Result Line) (c : Config) (s : Source)
    → transport_of c.path ≢ websocket
    → opens (opening_of c) ≡ ok (open_line s)
    → opens_async (opening_of c) ≡ ok (open_line s)
    → (e : Ended Session) × (connect opens c ≡ some e)
      × SameSession e (Connect.connect true opens_async c)
unfolding connect connect_broker Connect.connect Connect.connect_broker Connect.within
connect-SameSession opens opens_async c s h e f =
    by_transport opens opens_async c (transport_of c.path) (open_line s) h e f
