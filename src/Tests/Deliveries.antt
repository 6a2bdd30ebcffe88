-- ===== src/Tests/Deliveries.antt =====
-- src/broker.rs: the broker of Tests/Broker.antt at work.
use busrt.Protocol.Codes.{publish_topic_for}
use busrt.Broker.Target.{split_receiver}
use busrt.Wire.Utf8.{is_utf8}
use busrt.Wire.Split.{break_zero}
use busrt.Protocol.Error.{err, error_bare, not_delivered, timeout, err_access, response_ok}
use busrt.Protocol.Text.{from_utf8}
use busrt.Protocol.Codes.{message, processed, message_kind, broadcast_kind, publish_kind}
use busrt.Protocol.Frame.{FrameData}
use busrt.Broker.Maps.{lookup, has, is_in}
use busrt.Broker.Db.{Db}
use busrt.Broker.Aaa.{ClientAaa, is_allowed}
use busrt.Broker.Packet.{Packet}
use busrt.Broker.Target.{split_target}
use busrt.Broker.Registry.{drop_client, insert_client}
use busrt.Broker.Registry.Laws.{IsConsistent}
use busrt.Broker.Registry.{drop_depth}
use busrt.Broker.Maps.{add_name}
use busrt.Broker.Registry.Depth.{AreSecondary, drop_client-depth}
use busrt.Broker.Registry.Drop.{IsGone, drop_client-IsGone}
use busrt.Broker.Register.{register_client}
use busrt.Broker.Calls.{create, subscribe}
use busrt.Broker.Send.{
  done, deadlock, Content, frame_of, announce, send_broadcast, publish, retain, is_full,
  is_receiver, is_excluded, safe_send_frame, client_unregister,
}
use busrt.Broker.Send.Deliver.{Delivered}
use busrt.Broker.Send.Publish.{publish-Delivered, send_broadcast-Delivered}
use busrt.Broker.Send.Overflow.{
  client_unregister-keeps, announce-deadlock, safe_send_frame-overflow,
}
use busrt.Broker.Dispatch.{handle_packet, content}
use busrt.Broker.Dispatch.Answers.{
  IsAnswered, to_topic_for, for_one, handle_packet-denied, handle_packet-message,
  handle_packet-stuck,
}
use busrt.Broker.History.{Reach-IsConsistent}
use busrt.Tests.Maps.{exact_maps, exact_laws, collect, add_owner, subscribed, names}
use busrt.Tests.Broker.{env, blank, running, history, running-IsConsistent}
use busrt.Base.{
  ℕ, ◌≡◌, refl, sym, ◌∙◌, subst, true, false, not, ◌&&◌, Option, none, some, [], ◌∷◌, ◌++◌, arith,
  Bytes, codes, bytes_eq, bytes_eq_iff,
}

abbrev a_message : Packet
a_message = record {
  op_id = 7 ∷ 0 ∷ 0 ∷ 0 ∷ [];
  op = message;
  qos = processed;
  len = 4;
  buf = b'b' ∷ 0 ∷ 1 ∷ 2 ∷ [];
}

abbrev rights : ClientAaa exact_maps ℕ
rights = record {
  hosts_allow = [];
  p2p = record { any = false; masks = codes "b" ∷ codes "zz" ∷ [] };
  publish = record { any = true; masks = [] };
  subscribe = record { any = false; masks = [] };
  broadcast = record { any = false; masks = [] };
}

running-b : lookup (codes "b") running.clients ≡ some 2
unfolding register_client insert_client announce lookup create bytes_eq subscribe
running-b = refl

Reach-IsConsistent_example : IsConsistent exact_maps exact_laws running
Reach-IsConsistent_example =
    Reach-IsConsistent exact_maps exact_laws ℕ ℕ env (λ r. blank) false (λ r. refl) history

drop_client-IsGone_example :
    IsConsistent exact_maps exact_laws (drop_client exact_maps running 1)
    × IsGone exact_maps exact_laws (drop_client exact_maps running 1) 1
unfolding register_client insert_client announce lookup create bytes_eq subscribe
drop_client-IsGone_example =
    drop_client-IsGone exact_maps exact_laws running 1 running-IsConsistent refl

abbrev plain : Content
plain = record { header = none; buf = 1 ∷ 2 ∷ []; payload_pos = 0; len = 2; is_realtime = false }

has-one : (n k : Bytes) → has n (k ∷ []) ≡ true → k ≡ n
unfolding has
has-one n k h = (bytes_eq_iff k n).0 (ground (arith, h))

running-a1 : lookup (codes "a%%1") running.clients ≡ some 3
unfolding register_client insert_client announce lookup create bytes_eq subscribe
running-a1 = refl

a1_is_secondary : (running.objects 3).primary ≡ false
unfolding register_client insert_client announce lookup create bytes_eq subscribe
a1_is_secondary = refl

some-inj : (p q : ℕ) → some p ≡ some q → p ≡ q
some-inj p q e = cc e

running-AreSecondary : AreSecondary exact_maps running (codes "a%%1" ∷ [])
running-AreSecondary n q i e =
    subst (λ k. (running.objects k).primary ≡ false)
      (some-inj 3 q (
        sym running-a1
        ∙ subst (λ k. lookup k running.clients ≡ some q) (sym (has-one n (codes "a%%1") i)) e))
      a1_is_secondary

drop_client-depth_example : drop_depth exact_maps 7 running 1 ≡ drop_client exact_maps running 1
unfolding register_client insert_client announce lookup create bytes_eq subscribe add_name
drop_client-depth_example = drop_client-depth exact_maps 5 running 1 running-AreSecondary

send_broadcast-Delivered_example :
    (d : Db exact_maps) × (send_broadcast exact_maps env
        (announce exact_maps env)
        running
        1
        (codes "b")
        plain
        false
      ≡ done tt d)
    × Delivered exact_maps running d (2 ∷ []) (frame_of broadcast_kind (codes "a") none plain)
unfolding register_client insert_client announce lookup create bytes_eq subscribe is_full collect
    add_owner names is_in
send_broadcast-Delivered_example =
    send_broadcast-Delivered exact_maps env (announce exact_maps env) running 1 false (codes "b")
      plain (refl, tt) ((refl, refl), tt)

publish-Delivered_example :
    (d : Db exact_maps) × (publish exact_maps env
        (announce exact_maps env)
        running
        1
        (codes "temp")
        (some (codes "b"))
        plain
        false
      ≡ done tt d)
    × Delivered exact_maps running d
        (2 ∷ [])
        (frame_of publish_kind (codes "a") (some (codes "temp")) plain)
    × ((q : ℕ)
        → is_in q (2 ∷ []) ≡ (
            is_in q (2 ∷ [])
            && is_receiver exact_maps running (some (codes "b")) q
            && not (is_excluded exact_maps running (codes "temp") q)))
unfolding register_client insert_client announce lookup create bytes_eq subscribe is_full collect
    add_owner subscribed is_in retain is_receiver is_excluded
publish-Delivered_example =
    publish-Delivered exact_maps env (announce exact_maps env) running 1 false (codes "temp")
      (some (codes "b")) plain (refl, tt) ((refl, refl), tt)

safe_send_frame-overflow_example :
    (d : Db exact_maps) × (safe_send_frame exact_maps env
        (announce exact_maps env)
        running
        3
        (frame_of message_kind (codes "b") none plain)
        false
      ≡ done (err (error_bare not_delivered)) d)
    × IsGone exact_maps exact_laws d 3
    × IsConsistent exact_maps exact_laws d
    × ((d.objects 3).queue_closed ≡ true)
unfolding register_client insert_client announce lookup create bytes_eq subscribe is_full
safe_send_frame-overflow_example =
    safe_send_frame-overflow exact_maps exact_laws env (announce exact_maps env) running 3
      (frame_of message_kind (codes "b") none plain) false running-IsConsistent refl refl refl refl

client_unregister-keeps_example :
    (d : Db exact_maps) × (client_unregister exact_maps env running 1 ≡ done tt d)
    × (d.clients ≡ running.clients)
    × (d.subscriptions ≡ running.subscriptions)
    × (d.broadcasts ≡ running.broadcasts)
    × (drop_client exact_maps d 1 ≡ d)
client_unregister-keeps_example = client_unregister-keeps exact_maps env running 1

-- The RPC client of the broker is there.
abbrev with_rpc : Db exact_maps
with_rpc = record running { rpc_client = some 4 }

announce-deadlock_example : announce exact_maps env with_rpc (codes "reg") (codes "c") ≡ deadlock
unfolding register_client insert_client announce lookup create bytes_eq subscribe is_full collect
    add_owner subscribed is_in retain is_receiver is_excluded
announce-deadlock_example =
    announce-deadlock exact_maps env with_rpc 4 5 [] (codes "regc") (codes "reg") (codes "c") refl
      refl refl refl refl refl refl

-- A broker without a map of rights
abbrev no_rights : Option (ClientAaa exact_maps ℕ)
no_rights = none

handle_packet-message_example :
    (d : Db exact_maps) × Delivered exact_maps running d
      (2 ∷ [])
      (frame_of message_kind (codes "a") none (content exact_maps a_message 2))
    × IsAnswered exact_maps env 1 a_message response_ok d
        (handle_packet exact_maps env 1 no_rights a_message running)
unfolding register_client insert_client announce lookup create bytes_eq subscribe is_full
    split_target from_utf8 is_utf8 break_zero is_allowed has
handle_packet-message_example =
    handle_packet-message exact_maps env 1 no_rights a_message running (codes "b") 2 2 refl refl
      refl running-b (λ e. cc) (refl, refl) (refl, refl)

-- A client that may publish nothing
abbrev silenced : ClientAaa exact_maps ℕ
silenced = record rights { publish = record { any = false; masks = [] } }

-- A publication for the client s
abbrev news_for_s : Packet
news_for_s = record a_message {
  op = publish_topic_for;
  buf = codes "news" ++ 0 ∷ b's' ∷ 0 ∷ 5 ∷ [];
}

handle_packet-denied_example :
    IsAnswered exact_maps env 1 news_for_s err_access running
      (handle_packet exact_maps env 1 (some silenced) news_for_s running)
unfolding register_client insert_client announce lookup create bytes_eq subscribe is_full
    split_target split_receiver from_utf8 is_utf8 break_zero is_allowed has
handle_packet-denied_example =
    handle_packet-denied exact_maps env 1 (some silenced) news_for_s running (λ a. a.publish)
      (codes "news") 5 refl (to_topic_for (codes "s") 7 refl) refl (refl, refl)

handle_packet-stuck_example :
    (d : Db exact_maps) × (handle_packet exact_maps env 1 no_rights news_for_s running
      ≡ done (err (error_bare timeout)) d)
    × ((frame : FrameData) → Delivered exact_maps running d [] frame)
unfolding register_client insert_client announce lookup create bytes_eq subscribe is_full
    split_target split_receiver from_utf8 is_utf8 break_zero is_allowed collect add_owner subscribed
    is_in retain is_receiver is_excluded
handle_packet-stuck_example =
    handle_packet-stuck exact_maps env 1 no_rights news_for_s running (codes "news") 5 7 4
      (some (codes "s")) [] (for_one (codes "s") 7 refl) refl refl refl
      (record { full = refl; inside = refl; no_room = refl; is_open = refl })
