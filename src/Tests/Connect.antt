-- ===== src/Tests/Connect.antt =====
-- Connecting at concrete inputs: a broker that answers, and one that falls silent.
use busrt.Wire.Source.{Source, closed, stalled, read_exact}
use busrt.Wire.LittleEndian.{to_le, from_le}
use busrt.Protocol.Error.{Result, ok, err, not_supported, error_of, lit}
use busrt.Protocol.Name.{find, primary_name_of}
use busrt.Protocol.Talk.{Line, open_line}
use busrt.Ipc.Connect
use busrt.Ipc.Connect.{
  Config, new_config, websocket, transport_of, Opening, Session, session, register_secondary,
}
use busrt.Ipc.Connect.Secondary.{register_secondary-primary}
use busrt.Sync.Connect as Blocking
use busrt.Sync.Connect.{Ended, connect}
use busrt.Sync.Connect.Agree.{SameSession, connect-SameSession}
use busrt.Base.{true, ℕ, ◌+◌, ◌≡◌, refl, ◌≢◌, some, [], ◌∷◌, Bytes, codes}

-- A broker that accepts the greeting and the registration
abbrev accepting : Source
accepting = record { bytes = 0xeb ∷ 1 ∷ 0 ∷ 1 ∷ 1 ∷ []; tail = closed }

abbrev silent : Source
silent = record { bytes = 0xeb ∷ 1 ∷ 0 ∷ 1 ∷ []; tail = stalled }

abbrev opens : Source → Opening → Result Line
opens s o = ok (open_line s)

abbrev config : Config
config = new_config (codes "/run/busrt.sock") (codes "me")

abbrev digits : ℕ → Bytes
digits n = (48 + n) ∷ []

abbrev secondary : Session
secondary = session (record config { name = codes "me%%0" })

secondary-registered :
    (register_secondary true (opens accepting) digits (session config)).0 ≡ ok secondary
unfolding register_secondary Connect.next_secondary Connect.connect find read_exact to_le from_le
secondary-registered = refl

register_secondary-primary_example :
    ((register_secondary true (opens accepting) digits (session config)).1.secondary_counter ≡ 1)
    × (primary_name_of (codes "me%%0") ≡ codes "me")
    × (register_secondary true (opens accepting) digits secondary
        ≡ (err (error_of not_supported (lit "not a primary client" ∷ [])), secondary))
register_secondary-primary_example =
    register_secondary-primary true (opens accepting) digits (session config) secondary
      ((λ e f. cc), λ e. cc) secondary-registered

is_unix : transport_of (codes "/run/busrt.sock") ≢ websocket
unfolding transport_of
is_unix e = cc

connect-SameSession_example :
    (e : Ended Blocking.Session) × (connect (opens silent) config ≡ some e)
    × SameSession e (Connect.connect true (opens silent) config)
connect-SameSession_example =
    connect-SameSession (opens silent) (opens silent) config silent is_unix refl refl
