-- ===== src/Wire/Source.antt =====
-- A byte stream from a peer and `read_exact` on it. The bytes that the peer sends are a list;
-- behind them the peer has closed, is silent for longer than any timeout, or the transport fails
-- with an I/O error of a kind and a text.
use busrt.Base.{
  ℕ, ◌≡◌, ◌++◌, arith, ltb, if◌then◌else◌, Bytes, length, take, drop, length-append, take-append,
  drop-append,
}

-- `std::io::ErrorKind`, as far as the code tells its values apart.
pub data IoErrorKind : Type 0 where
  unexpected_eof broken_pipe connection_reset other_io : IoErrorKind

pub data Tail : Type 0 where
  closed stalled : Tail
  broken : IoErrorKind → Bytes → Tail

pub record Source : Type 0 where
  pub bytes : Bytes
  pub tail : Tail

-- A read gives its bytes and the source behind them, or says how the source ended.
pub data Read {ℓ} (A : Type ℓ) : Type ℓ where
  got : A → Source → Read A
  ended : Tail → Read A

unfoldable pub read_exact : ℕ → Source → Read Bytes
read_exact n s =
    if ltb (length s.bytes) n
    then ended s.tail
    else got (take n s.bytes) (record s { bytes = drop n s.bytes })

-- A source that begins with the bytes `b`.
abbrev pub before : Bytes → Source → Source
before b s = record s { bytes = b ++ s.bytes }

pub read_exact-before :
    (n : ℕ) (b : Bytes) (s : Source) → n ≡ length b → read_exact n (before b s) ≡ got b s
unfolding read_exact
read_exact-before n b s e =
    ground (arith, length-append b s.bytes, take-append n b s.bytes e, drop-append n b s.bytes e)
