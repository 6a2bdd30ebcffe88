-- ===== src/Tests/Daemon.antt =====
-- The daemon at concrete inputs: three paths, and a client that hears the warnings with a full queue.
use busrt.Protocol.Error.{Result, ok}
use busrt.Broker.Db.{Db, Client, local_ipc, new_client}
use busrt.Broker.Maps.{lookup}
use busrt.Broker.Calls.{create}
use busrt.Broker.Registry.{broker_warn_topic}
use busrt.Broker.Send.{is_full, retain, is_receiver, is_excluded}
use busrt.Broker.Send.Overflow.{IsStuck}
use busrt.Broker.Send.Event.{BrokerEvent, announce_event}
use busrt.Daemon.{Daemon, binding_of, start, running, terminate, ended, hangs, signals}
use busrt.Daemon.Stop.{terminate-started, terminate-deadlock}
use busrt.Tests.Maps.{exact_maps, collect, add_owner, subscribed}
use busrt.Tests.Broker.{env}
use busrt.Base.{◌≡◌, refl, true, false, Option, none, some, List, [], ◌∷◌, Bytes, codes, bytes_eq}

abbrev paths : List Bytes
paths = codes "fifo:/run/b" ∷ codes "0.0.0.0:7777" ∷ codes "/run/b.sock" ∷ []

abbrev encode : BrokerEvent → Result Bytes
encode e = ok e.subject

-- A client of a socket, with no room in its queue
abbrev full : Client exact_maps
full = record (new_client exact_maps (codes "c") (codes "c") 0 local_ipc none none) {
  registered = true;
}

abbrev alone : Db exact_maps
alone = create exact_maps (λ r. full) false

abbrev warned : Db exact_maps
warned = record alone {
  rpc_client = some 4;
  subscriptions =
      (exact_maps.subscribe broker_warn_topic (codes "c")
        (exact_maps.subs_register (codes "c") 5 exact_maps.no_subs)).0;
}

abbrev pid : Option Bytes
pid = some (codes "/run/b.pid")

abbrev files : List Bytes
files = codes "/run/b" ∷ codes "/run/b.sock" ∷ []

starts-all :
    start exact_maps (λ b. true) pid paths alone ≡ some (running exact_maps pid alone files)
unfolding start
starts-all = refl

terminate-started_example :
    terminate exact_maps encode env (running exact_maps pid alone files)
    ≡ ended (record {
      is_active = false;
      pid_file = pid;
      sock_files = files;
      broker = some alone;
      broker_held = false;
      removed = codes "/run/b.pid" ∷ files;
    })
unfolding announce_event create binding_of
terminate-started_example =
    terminate-started exact_maps encode env (λ b. true) pid paths alone alone
      (running exact_maps pid alone files) (ok tt) starts-all refl

full-IsStuck : IsStuck exact_maps (warned.objects 5)
unfolding create new_client is_full bytes_eq
full-IsStuck = record { full = refl; external = refl; is_primary = refl; is_registered = refl }

terminate-deadlock_example :
    (e : Daemon exact_maps) × (terminate exact_maps encode env
        (signals exact_maps encode env 1 (running exact_maps pid warned files))
      ≡ hangs e)
    × (e.is_active ≡ true)
unfolding create retain is_receiver is_excluded collect add_owner subscribed bytes_eq new_client
    lookup
terminate-deadlock_example =
    terminate-deadlock exact_maps encode env (running exact_maps pid warned files) warned 4 5 []
      (codes "shutdown") 1 refl refl refl refl refl refl full-IsStuck
