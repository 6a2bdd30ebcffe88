-- ===== src/Broker/Connection.antt =====
-- src/broker.rs: `handle_peer` after the handshake: its pinger and its end. The reader and the
-- writer of the connection are Broker/Dispatch and Broker/Writer.
use busrt.Protocol.Error.{Result, ok, err, Error, io, error_of, lit, str}
use busrt.Protocol.Frame.{new_nop}
use busrt.Protocol.Outcome.{Outcome, done, ◌>>=◌}
use busrt.Broker.Maps.{Maps, MapsLaws}
use busrt.Broker.Registry.Laws.{IsConsistent}
use busrt.Broker.Send.Consistent.{Ends, Ends-if, Ends->>=, push-Ok, unregister_client-Ok}
use busrt.Broker.Db.{Db}
use busrt.Broker.Send.{Env, is_full, push, unregister_client}
use busrt.Base.{ℕ, none, some, [], ◌∷◌, ◌++◌, if◌then◌else◌, Bytes}

module _ (m : Maps) where
  -- One round of `handle_pinger`
  unfoldable pub handle_pinger : Db m → ℕ → Outcome (Db m) (Result (Unit {0}))
  handle_pinger db r =
      if is_full m (db.objects r)
      then done (err (error_of io (lit "client queue overflow" ∷ []))) db
      else push m db r new_nop

  -- `format_result!`
  with_name : Bytes → Error → Error
  with_name name e = record {
    kind = e.kind;
    message = some (elim e.message [
      | none ↦ lit "[" ∷ str name ∷ lit "]" ∷ []
      | some text ↦ text ++ lit " [" ∷ str name ∷ lit "]" ∷ []
    ]);
  }

  format_result : Bytes → Result (Unit {0}) → Result (Unit {0})
  unfolding with_name
  format_result name (ok _) = ok tt
  format_result name (err e) = err (with_name name e)

  -- `finish_peer!` and what the connection's task answers, once its reader, its writer or its
  -- pinger has ended with a result, or it was disconnected by the broker (an `ok`).
  unfoldable pub finish_peer :
      Env → Db m → ℕ → Result (Unit {0}) → Outcome (Db m) (Result (Unit {0}))
  unfolding format_result
  finish_peer env db r result =
      unregister_client m env db r >>= (λ _ d. done (format_result (db.objects r).name result) d)

module _ (m : Maps) (laws : MapsLaws m) where
  pub handle_pinger-Ok :
      (db : Db m) (r : ℕ)
      → IsConsistent m laws db
      → Ends (IsConsistent m laws) (handle_pinger m db r)
  unfolding handle_pinger
  handle_pinger-Ok db r c =
      Ends-if (IsConsistent m laws) (is_full m (db.objects r)) _ _ c (push-Ok m laws db r new_nop c)

  pub finish_peer-Ok :
      (env : Env) (db : Db m) (r : ℕ) (result : Result (Unit {0}))
      → IsConsistent m laws db
      → Ends (IsConsistent m laws) (finish_peer m env db r result)
  unfolding finish_peer
  finish_peer-Ok env db r result c =
      Ends->>= (IsConsistent m laws) (unregister_client m env db r) _
        (unregister_client-Ok m laws env db r c) (λ _ d k. k)
