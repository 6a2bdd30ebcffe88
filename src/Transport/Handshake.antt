-- ===== src/Transport/Handshake.antt =====
-- The handshake over a connection: `chat` of src/ipc.rs and `handle_peer` of src/broker.rs, each on
-- the bytes that the other one writes.
use busrt.Wire.LittleEndian.{to_le, from_le, length-to_le, from_le-to_le_u16}
use busrt.Wire.Utf8.{is_utf8}
use busrt.Wire.Source.{Source, before}
use busrt.Protocol.Error.{
  ErrorKind, not_registered, Result, ok, err, Error, error_of, error_kind_of, error_code, lit, dec,
  response_ok,
}
use busrt.Protocol.Codes.{greetings, protocol_version}
use busrt.Protocol.Text.{from_utf8, from_utf8-ok}
use busrt.Protocol.Outcome.{Outcome, done, returned}
use busrt.Protocol.Talk.{Talk, hear, lift, ◌>>=◌, finish, Line, Ran, run, open_line, line, run-hear}
use busrt.Broker.Maps.{Maps}
use busrt.Broker.Db.{Db}
use busrt.Broker.Aaa.{ClientAaa}
use busrt.Broker.Send.{Env}
use busrt.Broker.Peer.{
  PeerHandlerParams, admit, handshake, registering, hear_name, answer_greeting, MayConnect, IsName,
  admit-MayConnect, answer_registered,
}
use busrt.Ipc.Chat.{chat, greet_back, register_name, expect_ok, fail_if}
use busrt.Base.{
  ℕ, suc, ◌%◌, ◌^◌, ◌≤◌, ◌≡◌, refl, sym, ap, ◌∙◌, Bool, true, Option, [], ◌∷◌, ◌++◌, append-nil,
  append_assoc, arith, le→ltb, Bytes, length,
}

-- What a client of this name writes, and what the broker does before it answers the registration.
abbrev pub client_side : Bytes → Bytes
client_side n = greetings ∷ to_le 2 protocol_version ++ (to_le 2 (length n % 2 ^ 16) ++ n)

abbrev pub broker_side : Bytes
broker_side = greetings ∷ to_le 2 protocol_version ++ (response_ok ∷ [])

before-append : (a b : Bytes) (s : Source) → before (a ++ b) s ≡ before a (before b s)
before-append a b s = ap (λ x. record s { bytes = x }) (append_assoc a b s.bytes)

abbrev pub saying : {S A : Type 0} → Bytes → Ran S A → Ran S A
saying b x = record { written = b ++ x.written; outcome = x.outcome }

saying-nothing :
    {S A : Type 0} (b : Bytes) (o : Outcome S (A × Line))
    → saying b (record { written = []; outcome = o }) ≡ record { written = b; outcome = o }
saying-nothing b o = ap (λ x. record { written = x; outcome = o }) (append-nil b)

expect_ok-error_code :
    {S : Type 0} (k : ErrorKind) (l : Line) (s : S)
    → run (expect_ok "Server registration response: " (error_code k ∷ [])) l s ≡ record {
      written = [];
      outcome =
          returned
            (error_of
              (error_kind_of (error_code k))
              (lit "Server registration response: " ∷ dec (error_code k) ∷ []))
            s;
    }
unfolding expect_ok run error_code
expect_ok-error_code not_registered l s = refl
expect_ok-error_code k l s = refl

-- The client on what the broker writes: all but the answer to the registration is settled.
chat-greeted :
    {S : Type 0} (n : Bytes) (code : ℕ) (back : Source) (s : S)
    → length n ≤ 65535
    → run (chat n) (open_line (before (broker_side ++ code ∷ []) back)) s
      ≡ saying
          (client_side n)
          (run (expect_ok "Server registration response: " (code ∷ [])) (open_line back) s)
unfolding chat greet_back register_name run to_le from_le fail_if expect_ok
chat-greeted {S = S} n code back s short = rw (le→ltb 65535 (length n) short) (
    run-hear 3 (greet_back {S = S} n) (greetings ∷ to_le 2 protocol_version)
      (before (response_ok ∷ code ∷ []) back) (λ n. ok tt) s refl
    ∙ ap (saying (greetings ∷ to_le 2 protocol_version)) (
        run-hear 1 (λ b. expect_ok "Server greetings response: " b >>= (λ _. register_name n))
          (response_ok ∷ []) (before (code ∷ []) back) (λ n. ok tt) s refl
        ∙ ap (saying (to_le 2 (length n % 2 ^ 16))) (
            ap (saying n) (
              run-hear 1 (expect_ok "Server registration response: ") (code ∷ []) back (λ n. ok tt)
                s refl))))

module _ {Network Addr : Type 0} (m : Maps) (contains : Network → Addr → Bool)
    (addr_text : Addr → Bytes) (env : Env) (params : PeerHandlerParams m Network Addr) (r : ℕ)
    (n : Bytes) (short : length n ≤ 65535) (utf8 : is_utf8 n ≡ true) where
  hear_name-heard :
      (rest : Source) (takes : ℕ → Result (Unit {0})) (db : Db m)
      → run
          (hear_name m contains addr_text env params r)
          (line (before (to_le 2 (length n % 2 ^ 16) ++ n) rest) takes)
          db
        ≡ run (admit m contains addr_text env params r n) (line rest takes) db
  unfolding hear_name
  hear_name-heard rest takes db =
      let k : Bytes → Talk (Db m) (Bytes × Option (ClientAaa m Network)) =
        λ buf. lift (from_utf8 buf) >>= admit m contains addr_text env params r in
      let len : Bytes = to_le 2 (length n % 2 ^ 16) in
      ap (λ x. run (hear_name m contains addr_text env params r) (line x takes) db)
        (before-append len n rest)
      ∙ run-hear 2 (λ b. hear (from_le b) k) len (before n rest) takes db
          (sym (length-to_le 2 (length n % 2 ^ 16)))
      ∙ run-hear (from_le len) k n rest takes db
          (from_le-to_le_u16 (length n % 2 ^ 16) (omega arith) ∙ omega arith)
      ∙ ap (λ x. run (lift x >>= admit m contains addr_text env params r) (line rest takes) db)
          (from_utf8-ok n utf8)

  -- The broker on a client's bytes, up to the name, where its first two writes are taken.
  handshake-greeted :
      (rest : Source) (takes : ℕ → Result (Unit {0})) (db : Db m)
      → takes 0 ≡ ok tt
      → takes 1 ≡ ok tt
      → run
          (handshake m contains addr_text env params r)
          (line (before (client_side n) rest) takes)
          db
        ≡ saying broker_side (
            run
              (admit m contains addr_text env params r n)
              (line rest (λ k. takes (suc (suc k))))
              db)
  unfolding handshake run to_le answer_greeting from_le
  handshake-greeted rest takes db t0 t1 = rw t0 (
      ap (saying (greetings ∷ to_le 2 protocol_version)) (
        run-hear 3 (answer_greeting m contains addr_text env params r)
          (greetings ∷ to_le 2 protocol_version) (before (to_le 2 (length n % 2 ^ 16) ++ n) rest)
          (λ k. takes (suc k)) db refl)
      ∙ rw t1 (ap (saying broker_side) (hear_name-heard rest (λ k. takes (suc (suc k))) db)))

  module _ (aaa : Option (ClientAaa m Network)) (name : IsName n)
      (may : MayConnect m contains addr_text params n aaa) (rest back : Source) (db d : Db m) where
    admitted :
        (takes : ℕ → Result (Unit {0})) (o : Result (Unit {0}))
        → registering m contains addr_text env params r n db ≡ done o d
        → run (admit m contains addr_text env params r n) (line rest takes) db
          ≡ run
              (answer_registered m contains addr_text o >>= (λ _. finish (n, aaa)))
              (line rest takes)
              d
    unfolding run
    admitted takes o e =
        rw (admit-MayConnect m contains addr_text env params r n aaa name may, e, run)

    -- A client with a UTF-8 name of at most 65535 bytes, not empty and with no dot in front, that may
    -- connect and whose registration succeeds: the broker, on what the client writes, takes all of
    -- it, registers the client under this name and with its rights, and answers; the client, on what
    -- the broker writes, takes all of it, writes what the broker has read, and succeeds.
    pub handshake-chat :
        registering m contains addr_text env params r n db ≡ done (ok tt) d
        → (run
              (handshake m contains addr_text env params r)
              (open_line (before (client_side n) rest))
              db
            ≡ record {
              written = broker_side ++ response_ok ∷ [];
              outcome = done ((n, aaa), open_line rest) d;
            })
          × (run (chat n) (open_line (before (broker_side ++ response_ok ∷ []) back)) tt
              ≡ record { written = client_side n; outcome = done (tt, open_line back) tt })
    unfolding run answer_registered expect_ok
    handshake-chat e = (
      handshake-greeted rest (λ n. ok tt) db refl refl
          ∙ ap (saying broker_side) (admitted (λ n. ok tt) (ok tt) e),
      chat-greeted n response_ok back tt short ∙ saying-nothing (client_side n) _,
    )

    -- Where the registration of such a client is refused, the broker, on what the client writes,
    -- ends with the error, and the client, on what the broker writes, ends with an error of the kind
    -- that the error's code stands for.
    pub handshake-refused :
        (x : Error)
        → registering m contains addr_text env params r n db ≡ done (err x) d
        → (run
              (handshake m contains addr_text env params r)
              (open_line (before (client_side n) rest))
              db
            ≡ record { written = broker_side ++ error_code x.kind ∷ []; outcome = returned x d })
          × (run (chat n) (open_line (before (broker_side ++ error_code x.kind ∷ []) back)) tt
              ≡ record {
                written = client_side n;
                outcome =
                    returned
                      (error_of
                        (error_kind_of (error_code x.kind))
                        (lit "Server registration response: " ∷ dec (error_code x.kind) ∷ []))
                      tt;
              })
    unfolding run answer_registered
    handshake-refused x e = (
      handshake-greeted rest (λ n. ok tt) db refl refl
          ∙ ap (saying broker_side) (admitted (λ n. ok tt) (err x) e),
      chat-greeted n (error_code x.kind) back tt short
          ∙ ap (saying (client_side n)) (expect_ok-error_code x.kind (open_line back) tt)
          ∙ saying-nothing (client_side n) _,
    )

    -- Where the registration of such a client succeeds, but the broker's answer to it cannot be
    -- written, the connection ends with that error, and the broker is left as the registration made
    -- it: nothing unregisters the client.
    pub handshake-unanswered :
        (takes : ℕ → Result (Unit {0})) (x : Error)
        → takes 0 ≡ ok tt
        → takes 1 ≡ ok tt
        → takes 2 ≡ err x
        → registering m contains addr_text env params r n db ≡ done (ok tt) d
        → (run
            (handshake m contains addr_text env params r)
            (line (before (client_side n) rest) takes)
            db).outcome
          ≡ returned x d
    unfolding run answer_registered
    handshake-unanswered takes x t0 t1 t2 e =
        ap (λ ran. ran.outcome)
          (handshake-greeted rest takes db t0 t1
            ∙ ap (saying broker_side) (admitted (λ k. takes (suc (suc k))) (ok tt) e))
        ∙ rw t2 refl
