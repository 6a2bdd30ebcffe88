-- ===== src/Ipc/Bulk.antt =====
-- src/ipc.rs: the payload of `subscribe_bulk`, `unsubscribe_bulk`, `exclude_bulk` and
-- `unexclude_bulk`, which the broker splits at the zero bytes.
use busrt.Wire.Split.{split_zero, NoZero, split_zero-NoZero}
use busrt.Base.{
  ℕ, ◌≡◌, refl, sym, ap, ◌∙◌, inl, inr, List, [], ◌∷◌, ◌++◌, append-nil, append_assoc, arith, ◌==◌,
  if◌then◌else◌, Bool-cases, Bytes, is_empty,
}

-- `for topic in topics`: the separator goes before a topic if the payload is not empty yet.
join_onto : Bytes → List Bytes → Bytes
join_onto payload [] = payload
join_onto payload (t ∷ ts) =
    join_onto ((if is_empty payload then payload else payload ++ 0 ∷ []) ++ t) ts

unfoldable pub topics_payload : List Bytes → Bytes
unfolding join_onto
topics_payload topics = join_onto [] topics

abbrev pub AllNoZero : List Bytes → Type 0
AllNoZero [] = Unit {0}
AllNoZero (t ∷ ts) = NoZero t × AllNoZero ts

split_zero-cons : (b : Bytes) → (p : Bytes) × (ps : List Bytes) × (split_zero b ≡ p ∷ ps)
unfolding split_zero
split_zero-cons [] = ([], [], refl)
split_zero-cons (c ∷ cs) = elim (Bool-cases (c == 0)) [
  | inl e ↦ ([], split_zero cs, ground arith)
  | inr e ↦ let (p, ps, h) = split_zero-cons cs in (c ∷ p, ps, ground (arith, h))
]

-- Two inputs with a zero byte between them split as each does alone.
split_zero-joined : (a b : Bytes) → split_zero (a ++ 0 ∷ b) ≡ split_zero a ++ split_zero b
unfolding split_zero
split_zero-joined [] b = refl
split_zero-joined (c ∷ cs) b =
    let (p, ps, h) = split_zero-cons cs in ground (arith, split_zero-joined cs b, h)

split-join_onto :
    (c : ℕ) (pre : Bytes) (ts : List Bytes)
    → AllNoZero ts
    → split_zero (join_onto (c ∷ pre) ts) ≡ split_zero (c ∷ pre) ++ ts
unfolding join_onto
split-join_onto c pre [] h = sym (append-nil (split_zero (c ∷ pre)))
split-join_onto c pre (t ∷ ts) h =
    split-join_onto c ((pre ++ 0 ∷ []) ++ t) ts h.1
    ∙ ap (λ b. split_zero (c ∷ b) ++ ts) (append_assoc pre (0 ∷ []) t)
    ∙ ap (λ b. b ++ ts)
        (split_zero-joined (c ∷ pre) t
          ∙ ap (λ b. split_zero (c ∷ pre) ++ b) (split_zero-NoZero t h.0))
    ∙ append_assoc (split_zero (c ∷ pre)) (t ∷ []) ts

-- The broker splits the payload of a bulk request into exactly the topics that the caller gave, in
-- their order, where no topic has a zero byte and the first one is not empty.
pub split_zero-topics_payload :
    (c : ℕ) (t : Bytes) (ts : List Bytes)
    → AllNoZero ((c ∷ t) ∷ ts)
    → split_zero (topics_payload ((c ∷ t) ∷ ts)) ≡ (c ∷ t) ∷ ts
unfolding topics_payload join_onto
split_zero-topics_payload c t ts h =
    split-join_onto c t ts h.1 ∙ ap (λ b. b ++ ts) (split_zero-NoZero (c ∷ t) h.0)
