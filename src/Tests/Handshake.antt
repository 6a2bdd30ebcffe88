-- ===== src/Tests/Handshake.antt =====
-- Handshakes with the broker of Tests/Broker, and what becomes of them.
use busrt.Wire.Source.{Source, closed}
use busrt.Protocol.Error.{Result, ok, err, Error, busy, eof, error_bare, error_of, lit, str}
use busrt.Protocol.Outcome.{done}
use busrt.Broker.Db.{Db, tcp}
use busrt.Broker.Aaa.{ClientAaa}
use busrt.Broker.Peer.{PeerHandlerParams, registering, MayConnect, listed}
use busrt.Transport.Handshake.{handshake-chat, handshake-refused, handshake-unanswered}
use busrt.Broker.Aaa.{connect_allowed}
use busrt.Protocol.Talk.{run, line, open_line}
use busrt.Wire.Source.{before}
use busrt.Wire.Utf8.{is_utf8}
use busrt.Broker.Peer.{handshake, is_valid_name}
use busrt.Ipc.Chat.{chat}
use busrt.Transport.Handshake.{client_side, broker_side}
use busrt.Protocol.Error.{response_ok, dec}
use busrt.Broker.Registry.{insert_client}
use busrt.Broker.Register.{register_client}
use busrt.Broker.Send.{announce}
use busrt.Broker.Calls.{create, subscribe}
use busrt.Broker.Maps.{lookup}
use busrt.Protocol.Outcome.{returned}
use busrt.Broker.Db.{new_client}
use busrt.Protocol.Name.{primary_name_of}
use busrt.Protocol.Error.{error_code, error_kind_of}
use busrt.Tests.Maps.{exact_maps}
use busrt.Tests.Broker.{env, empty, db_of}
use busrt.Base.{
  ℕ, zero, suc, ◌≡◌, refl, Bool, true, none, some, [], ◌∷◌, ◌++◌, arith, ◌==◌, Bytes, codes,
  bytes_eq,
}

abbrev nothing : Source
nothing = record { bytes = []; tail = closed }

abbrev local_only : ClientAaa exact_maps ℕ
local_only = record {
  hosts_allow = 10 ∷ [];
  p2p = record { any = true; masks = [] };
  publish = record { any = true; masks = [] };
  subscribe = record { any = true; masks = [] };
  broadcast = record { any = true; masks = [] };
}

abbrev params : PeerHandlerParams exact_maps ℕ ℕ
params = record {
  aaa_map = some (λ name. some local_only);
  ip = some 10;
  queue_size = 8;
  kind = tcp;
  source = none;
  source_port = none;
}

abbrev contains : ℕ → ℕ → Bool
contains n a = n == a

abbrev addr_text : ℕ → Bytes
addr_text a = []

abbrev with_g : Db exact_maps
with_g = db_of (registering exact_maps contains addr_text env params 9 (codes "g") empty)

abbrev with_twin : Db exact_maps
with_twin = db_of (registering exact_maps contains addr_text env params 8 (codes "g") with_g)

may_connect :
    (name : Bytes) → MayConnect exact_maps contains addr_text params name (some local_only)
unfolding connect_allowed
may_connect name = listed (λ n. some local_only) local_only refl refl (λ addr e. ground arith)

-- The third write fails.
abbrev third_fails : ℕ → Result (Unit {0})
third_fails zero = ok tt
third_fails (suc zero) = ok tt
third_fails (suc (suc n)) = err (error_bare eof)

handshake-chat_example :
    (run
        (handshake exact_maps contains addr_text env params 9)
        (open_line (before (client_side (codes "g")) nothing))
        empty
      ≡ record {
        written = broker_side ++ response_ok ∷ [];
        outcome = done ((codes "g", some local_only), open_line nothing) with_g;
      })
    × (run (chat (codes "g")) (open_line (before (broker_side ++ response_ok ∷ []) nothing)) tt
        ≡ record { written = client_side (codes "g"); outcome = done (tt, open_line nothing) tt })
unfolding is_utf8 is_valid_name registering register_client insert_client announce lookup create
    bytes_eq subscribe new_client primary_name_of error_code error_kind_of
handshake-chat_example =
    handshake-chat exact_maps contains addr_text env params 9 (codes "g") (omega arith) refl
      (some local_only) refl (may_connect (codes "g")) nothing nothing empty with_g refl

abbrev name_taken : Error
name_taken = error_of busy (lit "the client is already registred: " ∷ str (codes "g") ∷ [])

handshake-refused_example :
    (run
        (handshake exact_maps contains addr_text env params 8)
        (open_line (before (client_side (codes "g")) nothing))
        with_g
      ≡ record { written = broker_side ++ 0x76 ∷ []; outcome = returned name_taken with_twin })
    × (run (chat (codes "g")) (open_line (before (broker_side ++ 0x76 ∷ []) nothing)) tt ≡ record {
      written = client_side (codes "g");
      outcome = returned (error_of busy (lit "Server registration response: " ∷ dec 0x76 ∷ [])) tt;
    })
unfolding is_utf8 is_valid_name registering register_client insert_client announce lookup create
    bytes_eq subscribe new_client primary_name_of error_code error_kind_of
handshake-refused_example =
    handshake-refused exact_maps contains addr_text env params 8 (codes "g") (omega arith) refl
      (some local_only) refl (may_connect (codes "g")) nothing nothing with_g with_twin name_taken
      refl

handshake-unanswered_example :
    (run
      (handshake exact_maps contains addr_text env params 9)
      (line (before (client_side (codes "g")) nothing) third_fails)
      empty).outcome
    ≡ returned (error_bare eof) with_g
unfolding is_utf8 is_valid_name registering register_client insert_client announce lookup create
    bytes_eq subscribe new_client primary_name_of error_code error_kind_of
handshake-unanswered_example =
    handshake-unanswered exact_maps contains addr_text env params 9 (codes "g") (omega arith) refl
      (some local_only) refl (may_connect (codes "g")) nothing nothing empty with_g third_fails
      (error_bare eof) refl refl refl refl
