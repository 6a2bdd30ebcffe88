-- ===== src/Protocol/Name.antt =====
-- src/lib.rs and src/broker.rs: client names and the separator of secondary clients.
use mathlib.Core.Option
use busrt.Base.{
  ℕ, suc, ◌≡◌, refl, ap, ◌∙◌, ◌≢◌, Bool, true, false, ◌&&◌, Option, none, some, [], ◌∷◌, ◌++◌,
  append_assoc, arith, ◌==◌, if◌then◌else◌, Bytes, codes, length, take, take-append,
}

abbrev pub secondary_sep : Bytes
secondary_sep = codes "%%"

unfoldable pub starts_with : Bytes → Bytes → Bool
starts_with [] s = true
starts_with (p ∷ ps) [] = false
starts_with (p ∷ ps) (c ∷ cs) = p == c && starts_with ps cs

-- `str::find`: the first position at which the pattern stands.
unfoldable pub find : Bytes → Bytes → Option ℕ
unfolding starts_with
find p [] = if starts_with p [] then some 0 else none
find p (c ∷ cs) =
    let rest = find p cs in if starts_with p (c ∷ cs) then some 0 else Option.map suc rest

-- `name.find(SECONDARY_SEP).map_or(name, |pos| &name[..pos])`
unfoldable pub primary_name_of : Bytes → Bytes
unfolding find
primary_name_of name = elim (find secondary_sep name) [ none ↦ name | some pos ↦ take pos name ]

-- No separator begins inside the name, not even one that the following separator would complete.
abbrev pub IsPlain : Bytes → Type 0
IsPlain [] = Unit {0}
IsPlain (c ∷ []) = c ≢ b'%'
IsPlain (c ∷ d ∷ cs) = ((c ≡ b'%') → (d ≢ b'%')) × IsPlain (d ∷ cs)

pub find-IsPlain : (n : Bytes) → IsPlain n → find secondary_sep n ≡ none
unfolding find
find-IsPlain [] h = refl
find-IsPlain (c ∷ []) h = ground arith
find-IsPlain (c ∷ d ∷ cs) h = ground (arith, h.0, find-IsPlain (d ∷ cs) h.1)

pub find-append-sep :
    (n id : Bytes) → IsPlain n → find secondary_sep (n ++ (secondary_sep ++ id)) ≡ some (length n)
unfolding find
find-append-sep [] id h = refl
find-append-sep (c ∷ []) id h = ground (arith, find-append-sep [] id tt)
find-append-sep (c ∷ d ∷ cs) id h = ground (arith, h.0, find-append-sep (d ∷ cs) id h.1)

-- A plain name is its own primary name, so its client is a primary one.
primary_name_of-IsPlain : (n : Bytes) → IsPlain n → primary_name_of n ≡ n
unfolding primary_name_of
primary_name_of-IsPlain n h = rw (find-IsPlain n h, primary_name_of)

-- The primary name of a secondary client's name, `name%%id`, is `name`, for a plain name.
pub primary_name_of-append :
    (n id : Bytes) → IsPlain n → primary_name_of (n ++ (secondary_sep ++ id)) ≡ n
unfolding primary_name_of
primary_name_of-append n id h =
    rw (find-append-sep n id h, primary_name_of)
      (take-append (length n) n (secondary_sep ++ id) refl)

-- For a name that ends in `%` it is not, whatever stands before that: the separator is found one
-- byte too early, and the last byte of the name is lost.
pub primary_name_of-percent :
    (n id : Bytes) → IsPlain n → primary_name_of ((n ++ b'%' ∷ []) ++ (secondary_sep ++ id)) ≡ n
unfolding primary_name_of
primary_name_of-percent n id h =
    ap primary_name_of (append_assoc n (b'%' ∷ []) (secondary_sep ++ id))
    ∙ primary_name_of-append n (b'%' ∷ id) h
