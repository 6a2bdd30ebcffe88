-- ===== src/Broker/Peer/Keeps.antt =====
-- The handshake keeps the broker's maps consistent, however it ends.
use busrt.Broker.Db.{new_at}
use busrt.Broker.Db.{Client}
use busrt.Broker.Db.{new_client}
use busrt.Protocol.Codes.{greetings, protocol_version}
use busrt.Wire.LittleEndian.{from_le}
use busrt.Broker.Peer.{is_valid_name, look_up}
use busrt.Wire.Source.{Source}
use busrt.Protocol.Talk.{write, call, lift, after_call, after_read}
use busrt.Protocol.Error.{
  err_not_supported, err_data, invalid, not_supported, error_of, lit, str, response_ok, Result, ok,
  err, Error,
}
use busrt.Protocol.Outcome.{Outcome, done, returned, waiting, deadlock}
use busrt.Protocol.Talk.{
  Talk, finish, fail, say, hear, share, ◌>>=◌, Line, Ran, after_write, line, run,
}
use busrt.Wire.Source.{Read, got, ended, read_exact}
use busrt.Protocol.Text.{from_utf8}
use busrt.Broker.Maps.{Maps, MapsLaws}
use busrt.Broker.Db.{Db}
use busrt.Broker.Aaa.{ClientAaa, connect_allowed}
use busrt.Protocol.Name.{primary_name_of}
use busrt.Broker.Send.{Env}
use busrt.Broker.Send.Consistent.{Ends}
use busrt.Broker.Register.{register_client-Ok}
use busrt.Broker.Registry.Laws.{IsConsistent, new_at-IsConsistent}
use busrt.Broker.Peer.{
  PeerHandlerParams, refuse_if, authorize, check_rights, check_address, answer_registered,
  registering, admit, hear_name, answer_greeting, handshake,
}
use busrt.Base.{
  byte_at, ℕ, suc, ◌≡◌, refl, Bool, true, false, not, Option, none, some, [], ◌∷◌, arith, ◌==◌,
  if◌then◌else◌, Bytes, take, drop,
}

-- A conversation that calls nothing shared.
IsQuiet : {S A : Type 0} → Talk S A → Type 0
IsQuiet (finish a) = Unit
IsQuiet (fail e) = Unit
IsQuiet (say b t) = IsQuiet t
IsQuiet (hear n k) = (b : Bytes) → IsQuiet (k b)
IsQuiet (share c k) = ⊥

IsQuiet-if :
    {S A : Type 0} (b : Bool) (x y : Talk S A)
    → IsQuiet x
    → IsQuiet y
    → IsQuiet (if b then x else y)
IsQuiet-if true x y h k = h
IsQuiet-if false x y h k = k

-- A conversation that calls once, by which a state with P becomes one with Q.
Leads : {S A : Type 0} → (S → Type 0) → (S → Type 0) → Talk S A → Type 0
unfolding IsQuiet
Leads P Q (finish a) = Unit
Leads P Q (fail e) = Unit
Leads P Q (say b t) = Leads P Q t
Leads P Q (hear n k) = (b : Bytes) → Leads P Q (k b)
Leads {S = S} P Q (share c k) =
    ((s : S) → P s → Ends Q (c s)) × ((r : Result (Unit {0})) → IsQuiet (k r))

module _ {S : Type 0} (P Q : S → Type 0) where
  Leads->>= :
      {A B : Type 0} (t : Talk S A) (f : A → Talk S B)
      → IsQuiet t
      → ((a : A) → Leads P Q (f a))
      → Leads P Q (t >>= f)
  unfolding Leads IsQuiet
  Leads->>= (finish a) f h k = k a
  Leads->>= (fail e) f h k = tt
  Leads->>= (say b t) f h k = Leads->>= t f h k
  Leads->>= (hear n c) f h k = λ b. Leads->>= (c b) f (h b) k
  Leads->>= (share c d) f h k = absurd h

  after_write-Ends :
      {A : Type 0} (b : Bytes) (s : S) (o : Result (Unit {0})) (x : Ran S A)
      → Q s
      → Ends Q x.outcome
      → Ends Q (after_write b s o x).outcome
  unfolding after_write
  after_write-Ends b s (ok _) x q h = h
  after_write-Ends b s (err e) x q h = q

  after_read-Ends :
      {A : Type 0} (s : S) (f : Bytes → Source → Ran S A) (o : Read Bytes)
      → Q s
      → ((b : Bytes) (rest : Source) → Ends Q (f b rest).outcome)
      → Ends Q (after_read s f o).outcome
  unfolding after_read
  after_read-Ends s f (got b rest) q h = h b rest
  after_read-Ends s f (ended t) q h = q

  after_call-Ends :
      {A B : Type 0} (f : B → S → Ran S A) (o : Outcome S B)
      → Ends Q o
      → ((r : B) (d : S) → Q d → Ends Q (f r d).outcome)
      → Ends Q (after_call f o).outcome
  unfolding after_call
  after_call-Ends f (done r d) q h = h r d q
  after_call-Ends f (returned e d) q h = q
  after_call-Ends f waiting q h = tt
  after_call-Ends f deadlock q h = tt

  run-IsQuiet :
      {A : Type 0} (t : Talk S A) (l : Line) (s : S) → IsQuiet t → Q s → Ends Q (run t l s).outcome
  unfolding run IsQuiet
  run-IsQuiet (finish a) l s h q = q
  run-IsQuiet (fail e) l s h q = q
  run-IsQuiet (say b t) l s h q =
      after_write-Ends b s (l.takes 0) _ q
        (run-IsQuiet t (line l.incoming (λ n. l.takes (suc n))) s h q)
  run-IsQuiet (hear n k) l s h q =
      after_read-Ends s _ (read_exact n l.incoming) q
        (λ b rest. run-IsQuiet (k b) (line rest l.takes) s (h b) q)
  run-IsQuiet (share c k) l s h q = absurd h

  -- Where P is the stronger one, every end has Q.
  run-Leads :
      {A : Type 0} (t : Talk S A) (l : Line) (s : S)
      → ((s : S) → P s → Q s)
      → Leads P Q t
      → P s
      → Ends Q (run t l s).outcome
  unfolding run Leads
  run-Leads (finish a) l s w h p = w s p
  run-Leads (fail e) l s w h p = w s p
  run-Leads (say b t) l s w h p =
      after_write-Ends b s (l.takes 0) _ (w s p)
        (run-Leads t (line l.incoming (λ n. l.takes (suc n))) s w h p)
  run-Leads (hear n k) l s w h p =
      after_read-Ends s _ (read_exact n l.incoming) (w s p)
        (λ b rest. run-Leads (k b) (line rest l.takes) s w (h b) p)
  run-Leads (share c k) l s w h p =
      after_call-Ends _ (c s) (h.0 s p) (λ r d q. run-IsQuiet (k r) l d (h.1 r) q)

module _ {Network Addr : Type 0} (m : Maps) (laws : MapsLaws m) (contains : Network → Addr → Bool)
    (addr_text : Addr → Bytes) (env : Env) (params : PeerHandlerParams m Network Addr) (r : ℕ) where
  refuse_if-IsQuiet :
      (S : Type 0) (b : Bool) (code : ℕ) (e : Error) → IsQuiet (refuse_if {S = S} b code e)
  unfolding IsQuiet refuse_if
  refuse_if-IsQuiet S true code e = tt
  refuse_if-IsQuiet S false code e = tt

  check_address-IsQuiet :
      (S : Type 0) (name : Bytes) (ip : Option Addr) (a : ClientAaa m Network)
      → IsQuiet (check_address m contains addr_text {S = S} name ip a)
  unfolding IsQuiet check_address
  check_address-IsQuiet S name none a = tt
  check_address-IsQuiet S name (some addr) a =
      IsQuiet-if (connect_allowed contains a.hosts_allow addr) _ _ tt tt

  check_rights-IsQuiet :
      (S : Type 0) (name : Bytes) (ip : Option Addr) (a : Option (ClientAaa m Network))
      → IsQuiet (check_rights m contains addr_text {S = S} name ip a)
  unfolding IsQuiet check_rights
  check_rights-IsQuiet S name ip (some a) = check_address-IsQuiet S name ip a
  check_rights-IsQuiet S name ip none = tt

  look_up-IsQuiet :
      (S : Type 0) (o : Option (Bytes → Option (ClientAaa m Network))) (name : Bytes)
      (ip : Option Addr)
      → IsQuiet (look_up m contains addr_text {S = S} o name ip)
  unfolding IsQuiet look_up
  look_up-IsQuiet S none name ip = tt
  look_up-IsQuiet S (some f) name ip = check_rights-IsQuiet S name ip (f (primary_name_of name))

  abbrev IsFresh : Db m → Type 0
  IsFresh db = IsConsistent m laws db × ((db.objects r).registered ≡ false)

  registering-Ends :
      (name : Bytes) (db : Db m)
      → IsFresh db
      → Ends (IsConsistent m laws) (registering m contains addr_text env params r name db)
  unfolding registering new_client
  registering-Ends name db (c, h) =
      let x : Client m =
        new_client m name (primary_name_of name) params.queue_size params.kind params.source
          params.source_port in
      register_client-Ok m laws env (new_at m db r x) r (new_at-IsConsistent m laws db r x h refl c)
        (ground arith)

  answered-IsQuiet :
      {A : Type 0} (o : Result (Unit {0})) (a : A)
      → IsQuiet (answer_registered m contains addr_text {S = Db m} o >>= (λ _. finish a))
  unfolding IsQuiet answer_registered
  answered-IsQuiet (ok _) a = tt
  answered-IsQuiet (err e) a = tt

  registering-Leads :
      (name : Bytes) (aaa : Option (ClientAaa m Network))
      → Leads {A = Bytes × Option (ClientAaa m Network)} IsFresh (IsConsistent m laws) (
          call (registering m contains addr_text env params r name)
          >>= (λ o. answer_registered m contains addr_text o >>= (λ _. finish (name, aaa))))
  unfolding Leads
  registering-Leads name aaa = (registering-Ends name, λ o. answered-IsQuiet o (name, aaa))

  refused-Leads :
      {A : Type 0} (b : Bool) (code : ℕ) (e : Error) (f : Unit {0} → Talk (Db m) A)
      → Leads IsFresh (IsConsistent m laws) (f tt)
      → Leads IsFresh (IsConsistent m laws) (refuse_if b code e >>= f)
  refused-Leads b code e f h =
      Leads->>= IsFresh (IsConsistent m laws) (refuse_if b code e) f
        (refuse_if-IsQuiet (Db m) b code e) (λ _. h)

  admit-Leads :
      (name : Bytes)
      → Leads IsFresh (IsConsistent m laws) (admit m contains addr_text env params r name)
  unfolding admit authorize
  admit-Leads name =
      refused-Leads (not (is_valid_name name)) err_data
        (error_of invalid (lit "Invalid client name: " ∷ str name ∷ [])) _
        (Leads->>= IsFresh (IsConsistent m laws)
          (look_up m contains addr_text params.aaa_map name params.ip) _
          (look_up-IsQuiet (Db m) params.aaa_map name params.ip) (registering-Leads name))

  named-Leads :
      (o : Result Bytes)
      → Leads IsFresh (IsConsistent m laws) (lift o >>= admit m contains addr_text env params r)
  unfolding Leads
  named-Leads (ok name) = admit-Leads name
  named-Leads (err e) = tt

  hear_name-Leads :
      Leads IsFresh (IsConsistent m laws) (hear_name m contains addr_text env params r)
  unfolding Leads hear_name
  hear_name-Leads len buf = named-Leads (from_utf8 buf)

  answered-Leads :
      Leads IsFresh
        (IsConsistent m laws)
        (write (response_ok ∷ []) >>= (λ _. hear_name m contains addr_text env params r))
  unfolding Leads
  answered-Leads = hear_name-Leads

  greeted-Leads :
      (buf : Bytes)
      → Leads IsFresh (IsConsistent m laws) (answer_greeting m contains addr_text env params r buf)
  unfolding answer_greeting
  greeted-Leads buf =
      refused-Leads (not (byte_at 0 buf == greetings)) err_not_supported
        (error_of not_supported (lit "invalid protocol" ∷ [])) _
        (refused-Leads (not (from_le (take 2 (drop 1 buf)) == protocol_version)) err_not_supported
          (error_of not_supported (lit "unsupported protocol version" ∷ [])) _ answered-Leads)

  handshake-Leads :
      Leads IsFresh (IsConsistent m laws) (handshake m contains addr_text env params r)
  unfolding Leads handshake
  handshake-Leads = greeted-Leads

  -- Whatever a peer sends, and wherever its connection fails, the handshake leaves the broker's maps
  -- consistent, if the number of the new client is not that of a registered one.
  pub handshake-IsConsistent :
      (l : Line) (db : Db m)
      → IsConsistent m laws db
      → (db.objects r).registered ≡ false
      → Ends (IsConsistent m laws) (run (handshake m contains addr_text env params r) l db).outcome
  handshake-IsConsistent l db c h =
      run-Leads IsFresh (IsConsistent m laws) _ l db (λ s p. p.0) handshake-Leads (c, h)
