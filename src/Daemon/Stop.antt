-- ===== src/Daemon/Stop.antt =====
-- How the daemon ends.
use mathlib.Core.Option.{some_inj}
use busrt.Protocol.Error.{Result, ok}
use busrt.Protocol.Outcome.{done, deadlock}
use busrt.Broker.Maps.{Maps}
use busrt.Broker.Db.{Db}
use busrt.Broker.Registry.{broker_warn_topic}
use busrt.Broker.Send.{Env, retain}
use busrt.Broker.Send.Overflow.{IsStuck}
use busrt.Broker.Send.Event.{BrokerEvent, shutdown, announce_event, announce_event-deadlock}
use busrt.Daemon.{
  Binding, fifo, unix, tcp, binding_of, add_sock_file, Daemon, bind_all, running, start,
  remove_pid_file, remove_sock_files, announced, shut_down, terminate, ended, hangs, signals,
  state_of,
}
use busrt.Base.{
  ℕ, zero, suc, true, if◌then◌else◌, ◌≡◌, refl, sym, ap, subst, ◌∙◌, inl, inr, Bool, false, Option,
  none, some, List, [], ◌∷◌, ◌++◌, append-nil, append_assoc, arith, Bool-cases, Option-cases, Bytes,
}

-- The files of all the servers, in the order of the paths
abbrev pub file_of : Binding → List Bytes
file_of (fifo path) = path ∷ []
file_of (unix path) = path ∷ []
file_of (tcp path) = []

abbrev pub files_of : List Bytes → List Bytes
files_of [] = []
files_of (p ∷ ps) = file_of (binding_of p) ++ files_of ps

abbrev pub pid_of : Option Bytes → List Bytes
pid_of none = []
pid_of (some f) = f ∷ []

add_sock_file-file_of :
    (b : Binding) (files : List Bytes) → add_sock_file b files ≡ files ++ file_of b
unfolding add_sock_file
add_sock_file-file_of (fifo p) files = refl
add_sock_file-file_of (unix p) files = refl
add_sock_file-file_of (tcp p) files = sym (append-nil files)

bind_all-files_of :
    (starts : Binding → Bool) (paths files fs : List Bytes)
    → bind_all starts paths files ≡ some fs
    → fs ≡ files ++ files_of paths
unfolding bind_all
bind_all-files_of starts [] files fs e = sym (some_inj.0 e) ∙ sym (append-nil files)
bind_all-files_of starts (p ∷ ps) files fs e = elim (Bool-cases (starts (binding_of p))) [
  | inr h ↦ absurd (ground (arith, h))
  | inl h ↦
      bind_all-files_of starts ps (add_sock_file (binding_of p) files) fs
        (sym (rw (h, bind_all) refl) ∙ e)
      ∙ ap (λ x. x ++ files_of ps) (add_sock_file-file_of (binding_of p) files)
      ∙ append_assoc files (file_of (binding_of p)) (files_of ps)
]

module _ (m : Maps) where
  -- Removing files touches nothing else.
  abbrev with_removed : List Bytes → Daemon m → Daemon m
  with_removed fs d = record d { removed = d.removed ++ fs }

  remove_sock_files-removed :
      (fs : List Bytes) (d : Daemon m) → remove_sock_files m fs d ≡ with_removed fs d
  unfolding remove_sock_files
  remove_sock_files-removed [] d = ap (λ r. record d { removed = r }) (sym (append-nil d.removed))
  remove_sock_files-removed (f ∷ fs) d =
      remove_sock_files-removed fs (with_removed (f ∷ []) d)
      ∙ ap (λ r. record d { removed = r }) (append_assoc d.removed (f ∷ []) fs)

  remove_pid_file-removed :
      (o : Option Bytes) (d : Daemon m) → remove_pid_file m o d ≡ with_removed (pid_of o) d
  unfolding remove_pid_file
  remove_pid_file-removed none d = ap (λ r. record d { removed = r }) (sym (append-nil d.removed))
  remove_pid_file-removed (some f) d = refl

  abbrev cleaned : Daemon m → Daemon m
  cleaned d = record d { removed = (d.removed ++ pid_of d.pid_file) ++ d.sock_files }

  terminate-shut_down :
      (encode : BrokerEvent → Result Bytes) (env : Env) (d : Daemon m)
      → terminate m encode env d
        ≡ (if d.broker_held then hangs (cleaned d) else shut_down m encode env (cleaned d) d.broker)
  unfolding terminate
  terminate-shut_down encode env d =
      ap (λ e. if e.broker_held then hangs e else shut_down m encode env e e.broker)
        (ap (remove_sock_files m d.sock_files) (remove_pid_file-removed d.pid_file d)
          ∙ remove_sock_files-removed d.sock_files (with_removed (pid_of d.pid_file) d))

  start-running :
      (starts : Binding → Bool) (pid_file : Option Bytes) (paths : List Bytes) (db : Db m)
      (d : Daemon m)
      → start m starts pid_file paths db ≡ some d
      → d ≡ running m pid_file db (files_of paths)
  unfolding start
  start-running starts pid_file paths db d e = elim (Option-cases (bind_all starts paths [])) [
    | inl h ↦ absurd (ground (arith, h))
    | inr (fs, h) ↦
        sym (some_inj.0 (sym (rw (h, start) refl) ∙ e))
        ∙ ap (running m pid_file db) (bind_all-files_of starts paths [] fs h)
  ]

  -- A daemon that has started, with all its servers, is ended by a signal if the announcement of the
  -- shutdown ends: it is no longer active, and it has removed its pid file, if there is one, and the
  -- files of all its fifos and Unix servers, in the order of their paths, and nothing else.
  pub terminate-started :
      (encode : BrokerEvent → Result Bytes) (env : Env) (starts : Binding → Bool)
      (pid_file : Option Bytes) (paths : List Bytes) (db e : Db m) (d : Daemon m)
      (x : Result (Unit {0}))
      → start m starts pid_file paths db ≡ some d
      → announce_event m encode env db shutdown ≡ done x e
      → terminate m encode env d
        ≡ ended (record {
          is_active = false;
          pid_file = pid_file;
          sock_files = files_of paths;
          broker = some e;
          broker_held = false;
          removed = pid_of pid_file ++ files_of paths;
        })
  unfolding shut_down announced
  terminate-started encode env starts pid_file paths db e d x s a =
      ap (terminate m encode env) (start-running starts pid_file paths db d s)
      ∙ terminate-shut_down encode env (running m pid_file db (files_of paths))
      ∙ rw (a, announced) refl

  -- A signal hangs, in a state that is active.
  abbrev IsHung : (BrokerEvent → Result Bytes) → Env → Daemon m → Type 0
  IsHung encode env d = (e : Daemon m) × (terminate m encode env d ≡ hangs e) × (e.is_active ≡ true)

  signals-suc :
      (encode : BrokerEvent → Result Bytes) (env : Env) (n : ℕ) (d e : Daemon m)
      → terminate m encode env d ≡ hangs e
      → signals m encode env (suc n) d ≡ signals m encode env n e
  unfolding signals state_of
  signals-suc encode env n d e t = ap (λ x. signals m encode env n (state_of m x)) t

  -- With the lock held, every further signal hangs.
  signals-IsHung :
      (encode : BrokerEvent → Result Bytes) (env : Env) (n : ℕ) (d : Daemon m)
      → d.broker_held ≡ true
      → d.is_active ≡ true
      → IsHung encode env (signals m encode env n d)
  unfolding signals
  signals-IsHung encode env zero d h a =
      (cleaned d, terminate-shut_down encode env d ∙ rw (h) refl, a)
  signals-IsHung encode env (suc n) d h a =
      subst (IsHung encode env)
        (sym
          (signals-suc encode env n d (cleaned d) (terminate-shut_down encode env d ∙ rw (h) refl)))
        (signals-IsHung encode env n (cleaned d) h a)

  terminate-hangs :
      (encode : BrokerEvent → Result Bytes) (env : Env) (d : Daemon m) (db : Db m)
      → d.broker_held ≡ false
      → d.broker ≡ some db
      → announce_event m encode env db shutdown ≡ deadlock
      → terminate m encode env d ≡ hangs (record (cleaned d) { broker_held = true })
  unfolding shut_down announced
  terminate-hangs encode env d db h ed a =
      terminate-shut_down encode env d ∙ rw (h, ed) (rw (a, announced) refl)

  -- If the first subscriber of `.broker/warn` that does not exclude it is a registered primary client
  -- of a socket whose queue is full, with the broker's RPC client there and the event encoded, then no
  -- signal ends an active daemon whose broker's lock is free: the first signal and each after it
  -- hang, and the daemon stays active.
  pub terminate-deadlock :
      (encode : BrokerEvent → Result Bytes) (env : Env) (d : Daemon m) (db : Db m) (b s : ℕ)
      (rest : List ℕ) (event : Bytes) (n : ℕ)
      → d.is_active ≡ true
      → d.broker_held ≡ false
      → d.broker ≡ some db
      → db.rpc_client ≡ some b
      → encode shutdown ≡ ok event
      → retain m db broker_warn_topic none (m.get_subscribers broker_warn_topic db.subscriptions)
        ≡ s ∷ rest
      → IsStuck m (db.objects s)
      → (e : Daemon m) × (terminate m encode env (signals m encode env n d) ≡ hangs e)
        × (e.is_active ≡ true)
  unfolding signals
  terminate-deadlock encode env d db b s rest event n ea eh ed eb ee er h =
      let x = record (cleaned d) { broker_held = true } in
      let t : terminate m encode env d ≡ hangs x =
        terminate-hangs encode env d db eh ed
          (announce_event-deadlock m encode env db shutdown b s rest event eb ee er h) in
      elim n as (λ n. IsHung encode env (signals m encode env n d)) [
        | zero ↦ (x, t, ea)
        | suc k ↦
            subst (IsHung encode env) (sym (signals-suc encode env k d x t))
              (signals-IsHung encode env k x refl ea)
      ]
