-- ===== src/Daemon.antt =====
-- src/server.rs: the broker's daemon. What it binds, and how a signal ends it.
pub mod Stop
use busrt.Protocol.Error.{Result, ok, err}
use busrt.Protocol.Name.{starts_with}
use busrt.Protocol.Outcome.{Outcome, done, returned, waiting, deadlock}
use busrt.Ipc.Connect.{ends_with}
use busrt.Broker.Maps.{Maps}
use busrt.Broker.Db.{Db}
use busrt.Broker.Send.{Env}
use busrt.Broker.Send.Event.{BrokerEvent, shutdown, announce_event}
use busrt.Base.{
  Table, get, put, del, get-del, get-del_other, get-put, get-put_other, byte_at, ℕ, zero, suc, ◌+◌,
  ◌-◌, ◌*◌, ◌/◌, ◌%◌, ◌^◌, ◌≤◌, ◌<◌, bit_and, bit_or, String, ◌≡◌, refl, sym, ap, ◌∙◌, subst, ◌≢◌,
  ◌↔◌, ◌⊎◌, inl, inr, Bool, true, false, not, ◌&&◌, ◌||◌, Option, none, some, List, [], ◌∷◌, ◌++◌,
  map, append-nil, append_assoc, arith, ltb, leb, ◌==◌, if◌then◌else◌, ltb→lt, lt→ltb, leb→le,
  le→leb, lt→leb, le→ltb, ==_iff, Bool-cases, Option-cases, Bytes, codes, bytes_eq, bytes_eq_iff,
  length, take, drop, is_empty, length-append, length-drop, take-append, drop-append,
  take-append-drop, slice_from, slice,
}

-- What a path of the option `bind` stands for: a fifo, a Unix server, with the files that they make,
-- or a TCP server.
pub data Binding : Type 0 where
  fifo unix tcp : Bytes → Binding

-- `strip_prefix("fifo:")`
abbrev pub fifo_prefix : Bytes
fifo_prefix = codes "fifo:"

unfoldable pub binding_of : Bytes → Binding
unfolding starts_with ends_with
binding_of path =
    if starts_with fifo_prefix path
    then fifo (drop 5 path)
    else if ends_with (codes ".sock") path
        || ends_with (codes ".socket") path
        || ends_with (codes ".ipc") path
        || starts_with (codes "/") path
    then unix path
    else tcp path

-- The file that goes to `SOCK_FILES` once the server has started
unfoldable pub add_sock_file : Binding → List Bytes → List Bytes
add_sock_file (fifo path) files = files ++ path ∷ []
add_sock_file (unix path) files = files ++ path ∷ []
add_sock_file (tcp path) files = files

-- The statics of the daemon, whether the lock of `BROKER` is held, and the files that it has asked to
-- be removed.
pub record Daemon (m : Maps) : Type 0 where
  pub is_active : Bool
  pub pid_file : Option Bytes
  pub sock_files : List Bytes
  pub broker : Option (Db m)
  pub broker_held : Bool
  pub removed : List Bytes

-- The loop over the paths of `main`: whether each server starts is given; `none` is the panic of
-- `expect`.
unfoldable pub bind_all : (Binding → Bool) → List Bytes → List Bytes → Option (List Bytes)
unfolding binding_of add_sock_file
bind_all starts [] files = some files
bind_all starts (path ∷ paths) files =
    let rest = bind_all starts paths (add_sock_file (binding_of path) files) in
    if starts (binding_of path) then rest else none

module _ (m : Maps) where
  abbrev pub running : Option Bytes → Db m → List Bytes → Daemon m
  running pid_file db files = record {
    is_active = true;
    pid_file = pid_file;
    sock_files = files;
    broker = some db;
    broker_held = false;
    removed = [];
  }

  -- `main`, up to `BUS/RT broker started`; the broker is there with its RPC client.
  unfoldable pub start : (Binding → Bool) → Option Bytes → List Bytes → Db m → Option (Daemon m)
  unfolding bind_all
  start starts pid_file paths db = elim (bind_all starts paths []) [
    | none ↦ none
    | some files ↦ some (running pid_file db files)
  ]

  abbrev pub remove_file : Bytes → Daemon m → Daemon m
  remove_file f d = record d { removed = d.removed ++ f ∷ [] }

  unfoldable pub remove_pid_file : Option Bytes → Daemon m → Daemon m
  remove_pid_file none d = d
  remove_pid_file (some f) d = remove_file f d

  unfoldable pub remove_sock_files : List Bytes → Daemon m → Daemon m
  remove_sock_files [] d = d
  remove_sock_files (f ∷ fs) d = remove_sock_files fs (remove_file f d)

  -- `terminate` comes to its end, or hangs in this state.
  pub data Termination : Type 0 where
    ended hangs : Daemon m → Termination

  unfoldable pub state_of : Termination → Daemon m
  state_of (ended d) = d
  state_of (hangs d) = d

  -- What is left of `terminate` once the announcement has come to its end: an error is logged. Until
  -- then the lock of `BROKER` is held.
  unfoldable pub announced : {A : Type 0} → Daemon m → Outcome (Db m) A → Termination
  announced d (done _ db) = ended (record d { broker = some db; is_active = false })
  announced d (returned _ db) = ended (record d { broker = some db; is_active = false })
  announced d waiting = hangs (record d { broker_held = true })
  announced d deadlock = hangs (record d { broker_held = true })

  unfoldable pub shut_down :
      (BrokerEvent → Result Bytes) → Env → Daemon m → Option (Db m) → Termination
  unfolding announced announce_event
  shut_down encode env d none = ended (record d { is_active = false })
  shut_down encode env d (some db) = announced d (announce_event m encode env db shutdown)

  -- `terminate`
  unfoldable pub terminate : (BrokerEvent → Result Bytes) → Env → Daemon m → Termination
  unfolding remove_pid_file remove_sock_files shut_down
  terminate encode env d =
      let e = remove_sock_files d.sock_files (remove_pid_file d.pid_file d) in
      if e.broker_held then hangs e else shut_down encode env e e.broker

  -- The state after so many signals, each of which runs `terminate`.
  unfoldable pub signals : (BrokerEvent → Result Bytes) → Env → ℕ → Daemon m → Daemon m
  unfolding terminate state_of
  signals encode env zero d = d
  signals encode env (suc n) d = signals encode env n (state_of (terminate encode env d))
