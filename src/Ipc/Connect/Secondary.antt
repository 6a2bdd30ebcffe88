-- ===== src/Ipc/Connect/Secondary.antt =====
-- The secondary clients of a client over a socket, and the broker's view of their names.
use busrt.Ipc.Connect.{Outcome}
use busrt.Protocol.Error.{Result, ok, err, not_supported, error_of, lit}
use busrt.Protocol.Name.{
  secondary_sep, primary_name_of, IsPlain, find-IsPlain, find-append-sep, primary_name_of-append,
}
use busrt.Protocol.Outcome.{done, returned, waiting, deadlock}
use busrt.Protocol.Talk.{Line, run}
use busrt.Ipc.Chat.{chat}
use busrt.Ipc.Connect.{
  Config, Opening, open_by, Session, session, session_of, greet, connect_broker, connect, within,
  contains, next_secondary, register_secondary, transport_of,
}
use busrt.Base.{
  Bool, ℕ, ◌+◌, ◌%◌, ◌^◌, ◌≡◌, refl, sym, ap, ◌∙◌, true, false, none, [], ◌∷◌, ◌++◌, arith, Bytes,
}

session_of-ok :
    (c : Config) (o : Outcome (Unit {0}) (Unit {0} × Line)) (t : Session)
    → session_of c o ≡ ok t
    → t ≡ session c
unfolding session_of
session_of-ok c (done a d) t e = ground arith
session_of-ok c (returned x d) t e = absurd (ground arith)
session_of-ok c waiting t e = absurd (ground arith)
session_of-ok c deadlock t e = absurd (ground arith)

greet-ok : (c : Config) (l : Result Line) (t : Session) → greet c l ≡ ok t → t ≡ session c
unfolding greet
greet-ok c (err x) t e = absurd (ground arith)
greet-ok c (ok line) t e = session_of-ok c (run (chat c.name) line tt).outcome t e

within-ok : (in_time : Bool) (r : Result Session) (t : Session) → within in_time r ≡ ok t → r ≡ ok t
unfolding within
within-ok true r t e = e
within-ok false r t e = absurd (ground arith)

connect-ok :
    (in_time : Bool) (opens : Opening → Result Line) (c : Config) (t : Session)
    → connect in_time opens c ≡ ok t
    → t ≡ session c
unfolding connect connect_broker
connect-ok in_time opens c t e =
    greet-ok c (open_by opens c none (transport_of c.path)) t
      (within-ok in_time (connect_broker opens c none) t e)

contains-IsPlain : (n : Bytes) → IsPlain n → contains secondary_sep n ≡ false
unfolding contains
contains-IsPlain n h = rw (find-IsPlain n h, contains) refl

contains-secondary :
    (n id : Bytes) → IsPlain n → contains secondary_sep (n ++ (secondary_sep ++ id)) ≡ true
unfolding contains
contains-secondary n id h = rw (find-append-sep n id h, contains) refl

abbrev secondary : (ℕ → Bytes) → Session → Config
secondary digits s = record s.config {
  name = s.config.name ++ (secondary_sep ++ digits s.secondary_counter);
}

register_secondary-plain :
    (in_time : Bool) (opens : Opening → Result Line) (digits : ℕ → Bytes) (s : Session)
    → IsPlain s.config.name
    → register_secondary in_time opens digits s ≡ (
      connect in_time opens (secondary digits s),
      record s { secondary_counter = (s.secondary_counter + 1) % 2 ^ 64 },
    )
unfolding register_secondary next_secondary
register_secondary-plain in_time opens digits s h = rw (contains-IsPlain s.config.name h) refl

register_secondary-not_primary :
    (in_time : Bool) (opens : Opening → Result Line) (digits : ℕ → Bytes) (s : Session)
    → contains secondary_sep s.config.name ≡ true
    → register_secondary in_time opens digits s
      ≡ (err (error_of not_supported (lit "not a primary client" ∷ [])), s)
unfolding register_secondary next_secondary
register_secondary-not_primary in_time opens digits s h = rw (h) refl

-- If a client over a socket, whose name holds no part of the separator, registers a secondary client
-- and that connects: the counter has gone up by one, wrapping around; the secondary's name has the
-- client's as the primary name that the broker takes from it; and it can register no secondary
-- clients itself.
pub register_secondary-primary :
    (in_time : Bool) (opens : Opening → Result Line) (digits : ℕ → Bytes) (s t : Session)
    → IsPlain s.config.name
    → (register_secondary in_time opens digits s).0 ≡ ok t
    → ((register_secondary in_time opens digits s).1.secondary_counter
        ≡ (s.secondary_counter + 1) % 2 ^ 64)
      × (primary_name_of t.config.name ≡ s.config.name)
      × (register_secondary in_time opens digits t
          ≡ (err (error_of not_supported (lit "not a primary client" ∷ [])), t))
register_secondary-primary in_time opens digits s t h e =
    let r = register_secondary-plain in_time opens digits s h in
    let id = digits s.secondary_counter in
    let k =
      connect-ok in_time opens (secondary digits s) t
        (sym (ap (λ (p : Result Session × Session). p.0) r) ∙ e) in
    let n : t.config.name ≡ s.config.name ++ (secondary_sep ++ id) =
      ap (λ (x : Session). x.config.name) k in
    (
      ap (λ (p : Result Session × Session). p.1.secondary_counter) r,
      ap primary_name_of n ∙ primary_name_of-append s.config.name id h,
      register_secondary-not_primary in_time opens digits t
          (ap (contains secondary_sep) n ∙ contains-secondary s.config.name id h),
    )
