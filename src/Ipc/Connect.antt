-- ===== src/Ipc/Connect.antt =====
-- src/ipc.rs: `Config`, how `Client` connects, and `register_secondary`. What the opening of a
-- socket gives is given, and the digits of a number are.
pub mod Secondary
use busrt.Protocol.Error.{Result, ok, err, Error, timeout, not_supported, error_bare, error_of, lit}
use busrt.Protocol.Name.{secondary_sep, starts_with, find}
use busrt.Protocol.Outcome.{Outcome, done, returned, waiting, deadlock}
use busrt.Protocol.Talk.{Talk, finish, ◌>>=◌, Line, Ran, run}
use busrt.Ipc.Chat.{chat}
use busrt.Ipc.Client.{Client, new}
use busrt.Base.{
  Table, get, put, del, get-del, get-del_other, get-put, get-put_other, byte_at, ℕ, zero, suc, ◌+◌,
  ◌-◌, ◌*◌, ◌/◌, ◌%◌, ◌^◌, ◌≤◌, ◌<◌, bit_and, bit_or, String, ◌≡◌, refl, sym, ap, ◌∙◌, subst, ◌≢◌,
  ◌↔◌, ◌⊎◌, inl, inr, Bool, true, false, not, ◌&&◌, ◌||◌, Option, none, some, List, [], ◌∷◌, ◌++◌,
  map, append-nil, append_assoc, arith, ltb, leb, ◌==◌, if◌then◌else◌, ltb→lt, lt→ltb, leb→le,
  le→leb, lt→leb, le→ltb, ==_iff, Bool-cases, Option-cases, Bytes, codes, bytes_eq, bytes_eq_iff,
  length, take, drop, is_empty, length-append, length-drop, take-append, drop-append,
  take-append-drop, slice_from, slice,
}

-- Durations are in microseconds.
pub record Config : Type 0 where
  pub path : Bytes
  pub name : Bytes
  pub buf_size : ℕ
  pub buf_ttl : ℕ
  pub queue_size : ℕ
  pub timeout : ℕ
  pub token : Option Bytes

abbrev pub default_timeout : ℕ
default_timeout = 1000000

abbrev pub default_buf_ttl : ℕ
default_buf_ttl = 10

abbrev pub default_buf_size : ℕ
default_buf_size = 8192

abbrev pub default_queue_size : ℕ
default_queue_size = 8192

abbrev pub new_config : Bytes → Bytes → Config
new_config path name = record {
  path = path;
  name = name;
  buf_size = default_buf_size;
  buf_ttl = default_buf_ttl;
  queue_size = default_queue_size;
  timeout = default_timeout;
  token = none;
}

module _ (c : Config) where
  abbrev pub with_buf_size : ℕ → Config
  with_buf_size size = record c { buf_size = size }

  abbrev pub with_buf_ttl : ℕ → Config
  with_buf_ttl ttl = record c { buf_ttl = ttl }

  abbrev pub with_queue_size : ℕ → Config
  with_queue_size size = record c { queue_size = size }

  abbrev pub with_timeout : ℕ → Config
  with_timeout t = record c { timeout = t }

  abbrev pub with_token : Bytes → Config
  with_token t = record c { token = some t }

unfoldable pub ends_with : Bytes → Bytes → Bool
unfolding bytes_eq
ends_with p s = leb (length p) (length s) && bytes_eq p (drop (length s - length p) s)

pub data Transport : Type 0 where
  websocket unix tcp : Transport

-- By which transport a path is reached
unfoldable pub transport_of : Bytes → Transport
unfolding starts_with ends_with
transport_of path =
    if starts_with (codes "ws://") path || starts_with (codes "wss://") path
    then websocket
    else if ends_with (codes ".sock") path
        || ends_with (codes ".socket") path
        || ends_with (codes ".ipc") path
        || starts_with (codes "/") path
    then unix
    else tcp

-- What is asked of the operating system, or of the web socket's library with the header of the
-- request.
pub record Opening : Type 0 where
  pub transport : Transport
  pub path : Bytes
  pub authorization : Option Bytes

unfoldable pub bearer : Option Bytes → Option Bytes
bearer none = none
bearer (some token) = some (codes "Bearer " ++ token)

unfoldable pub open_by : (Opening → Result Line) → Config → Option Line → Transport → Result Line
unfolding bearer
open_by opens c stream websocket =
    opens (record { transport = websocket; path = c.path; authorization = bearer c.token })
open_by opens c (some stream) unix = ok stream
open_by opens c none unix = opens (record { transport = unix; path = c.path; authorization = none })
open_by opens c stream tcp = opens (record { transport = tcp; path = c.path; authorization = none })

-- A client that has connected
pub record Session : Type 0 where
  pub config : Config
  pub client : Client
  pub secondary_counter : ℕ

abbrev pub session : Config → Session
session c = record { config = c; client = new; secondary_counter = 0 }

-- The whole of it stands under the timeout, so what would wait for ever ends with it.
unfoldable pub session_of : Config → Outcome (Unit {0}) (Unit {0} × Line) → Result Session
session_of c (done _ _) = ok (session c)
session_of c (returned e _) = err e
session_of c waiting = err (error_bare timeout)
session_of c deadlock = err (error_bare timeout)

unfoldable pub greet : Config → Result Line → Result Session
unfolding chat run session_of
greet c (err e) = err e
greet c (ok line) = session_of c (run (chat c.name) line tt).outcome

unfoldable pub connect_broker : (Opening → Result Line) → Config → Option Line → Result Session
unfolding open_by transport_of greet
connect_broker opens c stream = greet c (open_by opens c stream (transport_of c.path))

-- `tokio::time::timeout`, by whether it is over in time
unfoldable pub within : Bool → Result Session → Result Session
within in_time r = if in_time then r else err (error_bare timeout)

-- Opening, greeting and registering stand under one timeout: `in_time` says whether they are over
-- within it.
unfoldable pub connect : Bool → (Opening → Result Line) → Config → Result Session
unfolding connect_broker within
connect in_time opens c = within in_time (connect_broker opens c none)

unfoldable pub connect_stream : Bool → (Opening → Result Line) → Line → Config → Result Session
unfolding connect_broker within
connect_stream in_time opens stream c = within in_time (connect_broker opens c (some stream))

-- `str::contains`
unfoldable pub contains : Bytes → Bytes → Bool
unfolding find
contains p s = elim (find p s) [ none ↦ false | some _ ↦ true ]

-- The configuration of the next secondary client, and the session with the counter behind it
unfoldable pub next_secondary : (ℕ → Bytes) → Session → Result Config × Session
unfolding contains
next_secondary digits s =
    if contains secondary_sep s.config.name
    then (err (error_of not_supported (lit "not a primary client" ∷ [])), s)
    else (
      ok (record s.config {
        name = s.config.name ++ (secondary_sep ++ digits s.secondary_counter);
      }),
      record s { secondary_counter = (s.secondary_counter + 1) % 2 ^ 64 },
    )

module _ (in_time : Bool) (opens : Opening → Result Line) where
  abbrev pub connect_next : Result Config × Session → Result Session × Session
  connect_next (err e, s) = (err e, s)
  connect_next (ok c, s) = (connect in_time opens c, s)

  unfoldable pub register_secondary : (ℕ → Bytes) → Session → Result Session × Session
  unfolding next_secondary connect
  register_secondary digits s = connect_next (next_secondary digits s)
