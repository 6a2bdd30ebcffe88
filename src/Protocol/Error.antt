-- ===== src/Protocol/Error.antt =====
-- src/lib.rs: error kinds, errors and their codes on the wire.
use busrt.Wire.Source.{
  IoErrorKind, unexpected_eof, broken_pipe, connection_reset, other_io, Tail, closed, stalled,
  broken,
}
use busrt.Base.{
  ℕ, String, ◌≡◌, refl, ◌≢◌, ◌↔◌, Option, none, some, List, [], ◌∷◌, arith, ◌==◌, if◌then◌else◌,
  Bytes,
}

abbrev pub response_ok : ℕ
response_ok = 0x01

abbrev pub err_client_not_registered : ℕ
err_client_not_registered = 0x71

abbrev pub err_data : ℕ
err_data = 0x72

abbrev pub err_io : ℕ
err_io = 0x73

abbrev pub err_other : ℕ
err_other = 0x74

abbrev pub err_not_supported : ℕ
err_not_supported = 0x75

abbrev pub err_busy : ℕ
err_busy = 0x76

abbrev pub err_not_delivered : ℕ
err_not_delivered = 0x77

abbrev pub err_timeout : ℕ
err_timeout = 0x78

abbrev pub err_access : ℕ
err_access = 0x79

pub data ErrorKind : Type 0 where
  not_registered not_supported io timeout invalid busy not_delivered access other eof : ErrorKind

-- `kind as u8`
unfoldable pub error_code : ErrorKind → ℕ
error_code not_registered = err_client_not_registered
error_code not_supported = err_not_supported
error_code io = err_io
error_code timeout = err_timeout
error_code invalid = err_data
error_code busy = err_busy
error_code not_delivered = err_not_delivered
error_code access = err_access
error_code other = err_other
error_code eof = 0xff

-- `From<u8> for ErrorKind`
unfoldable pub error_kind_of : ℕ → ErrorKind
error_kind_of c =
    if c == err_client_not_registered
    then not_registered
    else if c == err_not_supported
    then not_supported
    else if c == err_io
    then io
    else if c == err_data
    then invalid
    else if c == err_busy
    then busy
    else if c == err_not_delivered
    then not_delivered
    else if c == err_access
    then access
    else other

-- A message is kept as the pieces that `format!` joins.
pub data Piece : Type 0 where
  lit : String → Piece
  dec hex : ℕ → Piece
  str : Bytes → Piece

abbrev pub Message : Type 0
Message = Option (List Piece)

pub record Error : Type 0 where
  pub kind : ErrorKind
  pub message : Message

abbrev pub error_of : ErrorKind → List Piece → Error
error_of k m = record { kind = k; message = some m }

abbrev pub error_bare : ErrorKind → Error
error_bare k = record { kind = k; message = none }

pub data Result {ℓ} (Value : Type ℓ) : Type ℓ where
  err : Error → Result Value
  ok : Value → Result Value

-- `?`: an error leaves the function.
infixl 5 ◌>>=◌
abbrev pub ◌>>=◌ {κ ℓ} : {B : Type κ} {A : Type ℓ} → Result A → (A → Result B) → Result B
◌>>=◌ (err e) after = err e
◌>>=◌ (ok value) after = after value

abbrev pub ok_or {ℓ} : {A : Type ℓ} → Option A → Error → Result A
ok_or none e = err e
ok_or (some a) e = ok a

-- `to_busrt_result`: what an acknowledge code means to the caller.
unfoldable pub to_busrt_result : ℕ → Result (Unit {0})
unfolding error_kind_of
to_busrt_result c = if c == response_ok then ok tt else err (error_bare (error_kind_of c))

-- A code that stands for a kind of error comes back as that kind, but for Timeout and Eof, which
-- the conversion does not list: exactly these two come back as another kind.
pub error_kind_of-error_code :
    (k : ErrorKind) → (error_kind_of (error_code k) ≡ k) ↔ ((k ≢ timeout) × (k ≢ eof))
unfolding error_kind_of error_code
error_kind_of-error_code not_registered = ground arith
error_kind_of-error_code k = ground arith

-- `From<std::io::Error> for Error`: the end of the stream in any of its three forms is Eof.
unfoldable pub error_of_io : IoErrorKind → Bytes → Error
error_of_io unexpected_eof text = error_bare eof
error_of_io broken_pipe text = error_bare eof
error_of_io connection_reset text = error_bare eof
error_of_io other_io text = error_of io (str text ∷ [])

-- The error of a read under a timeout that did not get its bytes.
unfoldable pub read_error : Tail → Error
unfolding error_of_io
read_error closed = error_of_io unexpected_eof []
read_error stalled = error_bare timeout
read_error (broken k text) = error_of_io k text

-- No error is acknowledged as success: the code of every kind decodes to an error.
to_busrt_result-error_code :
    (k : ErrorKind) → (e : Error) × (to_busrt_result (error_code k) ≡ err e)
unfolding to_busrt_result error_code error_kind_of
to_busrt_result-error_code not_registered = (_, refl)
to_busrt_result-error_code k = (_, refl)
