-- ===== src/Tests/Broker.antt =====
-- A broker with five clients: `a` and `b` on sockets, `a%%1`, a secondary of `a` with a queue that
-- takes nothing, `s` in the broker's process and `f` on a socket, whose queues take nothing either.
use busrt.Protocol.Error.{ok}
use busrt.Broker.Maps.{lookup}
use busrt.Broker.Db.{new_at, Db, Client, ClientKind, internal, local_ipc, tcp}
use busrt.Broker.Send.{announce, broker_info_topic, Outcome, done, returned, waiting, deadlock, Env}
use busrt.Broker.Registry.{insert_client}
use busrt.Broker.Register.{register_client}
use busrt.Broker.Registry.Laws.{IsConsistent}
use busrt.Broker.Calls.{create, subscribe}
use busrt.Broker.History.{
  Step, Reach, here, next, registers, subscribes, EndsIn, Reach-IsConsistent,
}
use busrt.Protocol.Codes.{no_qos}
use busrt.Tests.Maps.{exact_maps, exact_laws}
use busrt.Base.{ℕ, refl, false, none, [], ◌++◌, Bytes, codes, bytes_eq}

abbrev pub env : Env
env = record { makes_room = λ r. false; encode_event = λ subject name. ok (subject ++ name) }

abbrev pub client_of : Bytes → Bytes → ClientKind → ℕ → Client exact_maps
client_of name primary_name kind size = record {
  name = name;
  primary_name = primary_name;
  kind = kind;
  source = none;
  port = none;
  disconnect_triggered = false;
  queue = [];
  queue_size = size;
  queue_closed = false;
  registered = false;
  r_frames = 0;
  r_bytes = 0;
  w_frames = 0;
  w_bytes = 0;
  primary = bytes_eq name primary_name;
  secondaries = [];
  has_exclusions = false;
  exclusions = [];
}

abbrev pub blank : Client exact_maps
blank = client_of [] [] tcp 0

abbrev pub empty : Db exact_maps
empty = create exact_maps (λ r. blank) false

abbrev pub db_of : {A : Type 0} → Outcome (Db exact_maps) A → Db exact_maps
db_of (done a d) = d
db_of (returned e d) = d
db_of waiting = empty
db_of deadlock = empty

abbrev pub with_client : Db exact_maps → ℕ → Bytes → Bytes → ClientKind → ℕ → Db exact_maps
with_client db r name primary_name kind size = db_of (
    register_client exact_maps env (new_at exact_maps db r (client_of name primary_name kind size))
      r)

abbrev pub with_a : Db exact_maps
with_a = with_client empty 1 (codes "a") (codes "a") local_ipc 8

abbrev pub with_b : Db exact_maps
with_b = with_client with_a 2 (codes "b") (codes "b") tcp 8

abbrev pub with_a1 : Db exact_maps
with_a1 = with_client with_b 3 (codes "a%%1") (codes "a") tcp 0

abbrev pub with_s : Db exact_maps
with_s = with_client with_a1 4 (codes "s") (codes "s") internal 0

abbrev pub with_f : Db exact_maps
with_f = with_client with_s 5 (codes "f") (codes "f") tcp 0

abbrev pub with_news : Db exact_maps
with_news = (subscribe exact_maps with_f 4 (codes "news") no_qos).0

abbrev pub with_info : Db exact_maps
with_info = (subscribe exact_maps with_news 5 broker_info_topic no_qos).0

abbrev pub running : Db exact_maps
running = (subscribe exact_maps with_info 2 (codes "temp") no_qos).0

registers_a : Step exact_maps ℕ ℕ env empty with_a
unfolding register_client insert_client announce lookup create EndsIn bytes_eq
registers_a = registers 1 (client_of (codes "a") (codes "a") local_ipc 8) refl refl refl

registers_b : Step exact_maps ℕ ℕ env with_a with_b
unfolding register_client insert_client announce lookup create EndsIn bytes_eq
registers_b = registers 2 (client_of (codes "b") (codes "b") tcp 8) refl refl refl

registers_a1 : Step exact_maps ℕ ℕ env with_b with_a1
unfolding register_client insert_client announce lookup create EndsIn bytes_eq
registers_a1 = registers 3 (client_of (codes "a%%1") (codes "a") tcp 0) refl refl refl

registers_s : Step exact_maps ℕ ℕ env with_a1 with_s
unfolding register_client insert_client announce lookup create EndsIn bytes_eq
registers_s = registers 4 (client_of (codes "s") (codes "s") internal 0) refl refl refl

registers_f : Step exact_maps ℕ ℕ env with_s with_f
unfolding register_client insert_client announce lookup create EndsIn bytes_eq
registers_f = registers 5 (client_of (codes "f") (codes "f") tcp 0) refl refl refl

registered_all : Reach exact_maps ℕ ℕ env empty with_f
registered_all =
    next (next (next (next (next here registers_a) registers_b) registers_a1) registers_s)
      registers_f

pub history : Reach exact_maps ℕ ℕ env empty running
history =
    next
      (next (next registered_all (subscribes 4 (codes "news") no_qos))
        (subscribes 5 broker_info_topic no_qos))
      (subscribes 2 (codes "temp") no_qos)

pub running-IsConsistent : IsConsistent exact_maps exact_laws running
running-IsConsistent =
    Reach-IsConsistent exact_maps exact_laws ℕ ℕ env (λ r. blank) false (λ r. refl) history
