-- ===== src/Wire/Split.antt =====
-- `split`, `splitn(2, …)` and `splitn(3, …)` at a zero byte.
use busrt.Base.{
  ℕ, ◌≡◌, ◌≢◌, refl, Option, none, some, List, [], ◌∷◌, ◌++◌, arith, ◌==◌, if◌then◌else◌, Bytes,
}

-- The part before the first zero byte, and what follows that byte, if there is one.
unfoldable pub break_zero : Bytes → Bytes × Option Bytes
break_zero [] = ([], none)
break_zero (c ∷ cs) =
    let rest = break_zero cs in if c == 0 then ([], some cs) else (c ∷ rest.0, rest.1)

abbrev pub push_head : ℕ → List Bytes → List Bytes
push_head c [] = (c ∷ []) ∷ []
push_head c (p ∷ ps) = (c ∷ p) ∷ ps

-- All parts: one more than there are zero bytes.
unfoldable pub split_zero : Bytes → List Bytes
split_zero [] = [] ∷ []
split_zero (c ∷ cs) = let rest = split_zero cs in if c == 0 then [] ∷ rest else push_head c rest

abbrev pub NoZero : Bytes → Type 0
NoZero [] = Unit {0}
NoZero (c ∷ cs) = (c ≢ 0) × NoZero cs

pub break_zero-append : (t rest : Bytes) → NoZero t → break_zero (t ++ 0 ∷ rest) ≡ (t, some rest)
unfolding break_zero
break_zero-append [] rest h = refl
break_zero-append (c ∷ cs) rest h = ground (arith, break_zero-append cs rest h.1)

-- What is broken off comes back: the two parts, with the zero byte between them, are the input.
abbrev pub Rejoins : Bytes → Bytes × Option Bytes → Type 0
Rejoins b (p, none) = b ≡ p
Rejoins b (p, some r) = b ≡ p ++ 0 ∷ r

pub break_zero-Rejoins : (b : Bytes) → Rejoins b (break_zero b)
unfolding break_zero
break_zero-Rejoins [] = refl
break_zero-Rejoins (c ∷ cs) = ground (arith, break_zero-Rejoins cs)

pub split_zero-append :
    (t rest : Bytes) → NoZero t → split_zero (t ++ 0 ∷ rest) ≡ t ∷ split_zero rest
unfolding split_zero
split_zero-append [] rest h = refl
split_zero-append (c ∷ cs) rest h = ground (arith, split_zero-append cs rest h.1)

pub split_zero-NoZero : (t : Bytes) → NoZero t → split_zero t ≡ t ∷ []
unfolding split_zero
split_zero-NoZero [] h = refl
split_zero-NoZero (c ∷ cs) h = ground (arith, split_zero-NoZero cs h.1)
