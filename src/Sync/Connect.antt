-- ===== src/Sync/Connect.antt =====
-- src/sync/ipc.rs: how `Client` connects, `chat` and `register_secondary`. Nothing here stands under
-- a timeout but the writes: a broker that is silent keeps the caller waiting.
pub mod Agree
use busrt.Wire.Source.{Source, Tail, stalled, Read, got, ended, read_exact}
use busrt.Protocol.Error.{Result, ok, err, Error, not_supported, error_of, lit, read_error}
use busrt.Protocol.Name.{secondary_sep}
use busrt.Protocol.Outcome.{Outcome, done, returned, waiting, deadlock}
use busrt.Protocol.Talk.{
  Talk, finish, fail, say, hear, share, ◌>>=◌, Line, Ran, run, after_write, after_read, after_call,
}
use busrt.Ipc.Chat
use busrt.Ipc.Connect.{Config, Transport, websocket, unix, tcp, transport_of, Opening, contains}
use busrt.Sync.Client.{Client, new}
use busrt.Base.{
  Table, get, put, del, get-del, get-del_other, get-put, get-put_other, byte_at, ℕ, zero, suc, ◌+◌,
  ◌-◌, ◌*◌, ◌/◌, ◌%◌, ◌^◌, ◌≤◌, ◌<◌, bit_and, bit_or, String, ◌≡◌, refl, sym, ap, ◌∙◌, subst, ◌≢◌,
  ◌↔◌, ◌⊎◌, inl, inr, Bool, true, false, not, ◌&&◌, ◌||◌, Option, none, some, List, [], ◌∷◌, ◌++◌,
  map, append-nil, append_assoc, arith, ltb, leb, ◌==◌, if◌then◌else◌, ltb→lt, lt→ltb, leb→le,
  le→leb, lt→leb, le→ltb, ==_iff, Bool-cases, Option-cases, Bytes, codes, bytes_eq, bytes_eq_iff,
  length, take, drop, is_empty, length-append, length-drop, take-append, drop-append,
  take-append-drop, slice_from, slice,
}

-- How a task that blocks ends.
pub data Ended (A : Type 0) : Type 0 where
  finished : A → Ended A
  failed : Error → Ended A
  waits : Ended A

unfoldable pub after_blocking_read :
    {A : Type 0} → (Bytes → Source → Ended A) → Read Bytes → Ended A
unfolding read_error
after_blocking_read next (got b rest) = next b rest
after_blocking_read next (ended stalled) = waits
after_blocking_read next (ended t) = failed (read_error t)

unfoldable pub after_blocking_write : {A : Type 0} → Result (Unit {0}) → Ended A → Ended A
after_blocking_write (ok _) e = e
after_blocking_write (err x) e = failed x

unfoldable pub after_blocking_call :
    {A : Type 0} → (Result (Unit {0}) → Ended A) → Outcome (Unit {0}) (Result (Unit {0})) → Ended A
after_blocking_call next (done r _) = next r
after_blocking_call next (returned e _) = failed e
after_blocking_call next waiting = waits
after_blocking_call next deadlock = waits

-- A conversation over a blocking socket
unfoldable pub run_blocking : {A : Type 0} → Talk (Unit {0}) A → Line → Ended A
unfolding after_blocking_read after_blocking_write after_blocking_call read_exact
run_blocking (finish a) l = finished a
run_blocking (fail e) l = failed e
run_blocking (say b t) l =
    after_blocking_write (l.takes 0) (run_blocking t (record l { takes = λ n. l.takes (suc n) }))
run_blocking (hear n k) l =
    after_blocking_read (λ b rest. run_blocking (k b) (record l { incoming = rest }))
      (read_exact n l.incoming)
run_blocking (share c k) l = after_blocking_call (λ r. run_blocking (k r) l) (c tt)

-- `chat`: line for line that of src/ipc.rs.
abbrev pub chat : Bytes → Talk (Unit {0}) (Unit {0})
chat = Chat.chat

unfoldable pub open_by :
    (Opening → Result Line) → Config → Option Line → Transport → Option (Result Line)
open_by opens c stream websocket = none
open_by opens c (some stream) unix = some (ok stream)
open_by opens c none unix =
    some (opens (record { transport = unix; path = c.path; authorization = none }))
open_by opens c stream tcp =
    some (opens (record { transport = tcp; path = c.path; authorization = none }))

-- A client that has connected, with its reader that is to be run
pub record Session : Type 0 where
  pub config : Config
  pub client : Client
  pub secondary_counter : ℕ

abbrev pub session : Config → Session
session c = record { config = c; client = new; secondary_counter = 0 }

unfoldable pub session_of : Config → Ended (Unit {0}) → Ended Session
session_of c (finished _) = finished (session c)
session_of c (failed e) = failed e
session_of c waits = waits

unfoldable pub greet : Config → Result Line → Ended Session
unfolding run_blocking session_of
greet c (err e) = failed e
greet c (ok line) = session_of c (run_blocking (chat c.name) line)

-- `connect_broker`; `none` is the panic of `unimplemented!`.
unfoldable pub connect_broker :
    (Opening → Result Line) → Config → Option Line → Option (Ended Session)
unfolding open_by transport_of greet
connect_broker opens c stream = elim (open_by opens c stream (transport_of c.path)) [
  | none ↦ none
  | some l ↦ some (greet c l)
]

unfoldable pub connect : (Opening → Result Line) → Config → Option (Ended Session)
unfolding connect_broker
connect opens c = connect_broker opens c none

unfoldable pub connect_stream : (Opening → Result Line) → Line → Config → Option (Ended Session)
unfolding connect_broker
connect_stream opens stream c = connect_broker opens c (some stream)

-- The configuration of the next secondary client, and the session with the counter behind it
unfoldable pub next_secondary : (ℕ → Bytes) → Session → Result Config × Session
unfolding contains
next_secondary digits s =
    if contains secondary_sep s.config.name
    then (err (error_of not_supported (lit "not a primary client" ∷ [])), s)
    else (
      ok (record s.config {
        name = s.config.name ++ (secondary_sep ++ digits s.secondary_counter);
      }),
      record s { secondary_counter = (s.secondary_counter + 1) % 2 ^ 64 },
    )

abbrev pub connect_next :
    (Opening → Result Line) → Result Config × Session → Option (Ended Session) × Session
connect_next opens (err e, s) = (some (failed e), s)
connect_next opens (ok c, s) = (connect opens c, s)

unfoldable pub register_secondary :
    (Opening → Result Line) → (ℕ → Bytes) → Session → Option (Ended Session) × Session
unfolding next_secondary connect
register_secondary opens digits s = connect_next opens (next_secondary digits s)
