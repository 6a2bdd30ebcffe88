-- ===== src/Ipc/Chat.antt =====
-- src/ipc.rs: `chat`, the client's side of the handshake. The timeout is that of `Client::connect`
-- around it.
use busrt.Wire.LittleEndian.{to_le, from_le}
use busrt.Protocol.Error.{
  Error, invalid, not_supported, error_of, error_kind_of, lit, dec, response_ok,
}
use busrt.Protocol.Codes.{greetings, protocol_version}
use busrt.Protocol.Talk.{Talk, finish, fail, ◌>>=◌, write, read}
use busrt.Base.{
  byte_at, ◌%◌, ◌^◌, String, Bool, not, [], ◌∷◌, ltb, ◌==◌, if◌then◌else◌, Bytes, length, take,
  drop,
}

module _ {S : Type 0} where
  unfoldable pub fail_if : Bool → Error → Talk S (Unit {0})
  fail_if b e = if b then fail e else finish tt

  -- `if buf[0] != RESPONSE_OK { … }`
  unfoldable pub expect_ok : String → Bytes → Talk S (Unit {0})
  unfolding fail_if
  expect_ok text buf =
      fail_if (not (byte_at 0 buf == response_ok))
        (error_of (error_kind_of (byte_at 0 buf)) (lit text ∷ dec (byte_at 0 buf) ∷ []))

  -- The registration, once the broker has accepted the greeting.
  unfoldable pub register_name : Bytes → Talk S (Unit {0})
  unfolding expect_ok
  register_name name = do
    _ ← write (to_le 2 (length name % 2 ^ 16))
    _ ← write name
    buf ← read 1
    expect_ok "Server registration response: " buf

  unfoldable pub greet_back : Bytes → Bytes → Talk S (Unit {0})
  unfolding fail_if expect_ok register_name
  greet_back name buf = do
    _ ←
        fail_if (not (byte_at 0 buf == greetings))
          (error_of not_supported (lit "Invalid greetings" ∷ []))
    _ ←
        fail_if (not (from_le (take 2 (drop 1 buf)) == protocol_version))
          (error_of not_supported (lit "Unsupported protocol version" ∷ []))
    _ ← write buf
    buf ← read 1
    _ ← expect_ok "Server greetings response: " buf
    register_name name

  unfoldable pub chat : Bytes → Talk S (Unit {0})
  unfolding fail_if greet_back
  chat name = do
    _ ← fail_if (ltb 65535 (length name)) (error_of invalid (lit "name too long" ∷ []))
    buf ← read 3
    greet_back name buf
