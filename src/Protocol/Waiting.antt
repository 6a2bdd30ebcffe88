-- ===== src/Protocol/Waiting.antt =====
-- Those who wait for an answer, each on a channel of its own, by the id of what they have sent: the
-- confirmations of src/ipc.rs and the calls of src/rpc/async_client.rs.
use busrt.Base.{
  Table, get, put, del, get-del, get-del_other, get-put, get-put_other, ℕ, suc, ◌+◌, ◌≤◌, ◌<◌, ◌≡◌,
  refl, ◌≢◌, ◌⊎◌, some, [], ◌∷◌, arith, ◌==◌, if◌then◌else◌,
}

-- How often something was sent on a channel.
abbrev pub count {ℓ} : {A : Type ℓ} → ℕ → Table A → ℕ
count ch [] = 0
count ch ((k, v) ∷ t) = let rest = count ch t in if ch == k then suc rest else rest

-- `pending` holds the channels that wait, `made` counts the channels, `answered` is what was sent on
-- them. A channel that waits was made and has got nothing; no two ids wait on the same one; no
-- channel has got more than one answer, and none that was not made has got any. A channel that
-- neither waits nor has got an answer is lost: who holds its other end gets the error Eof.
pub record IsOnce {ℓ} {A : Type ℓ} (pending : Table ℕ) (made : ℕ) (answered : Table A)
    : Type 0 where
  pub silent : (id ch : ℕ) → get id pending ≡ some ch → (ch < made) × (count ch answered ≡ 0)
  pub apart : (i j ch : ℕ) → get i pending ≡ some ch → get j pending ≡ some ch → i ≡ j
  pub once : (ch : ℕ) → count ch answered ≤ 1
  pub unmade : (ch : ℕ) → made ≤ ch → count ch answered ≡ 0

get-put-cases :
    (i k v w : ℕ) (t : Table ℕ)
    → get i (put k v t) ≡ some w
    → ((i ≡ k) × (v ≡ w)) ⊎ ((i ≢ k) × (get i t ≡ some w))
get-put-cases i k v w t e = ground (arith, get-put k v t, get-put_other i k v t)

get-del-cases : (i k w : ℕ) (t : Table ℕ) → get i (del k t) ≡ some w → (i ≢ k) × (get i t ≡ some w)
get-del-cases i k w t e = ground (arith, get-del k t, get-del_other i k t)

module _ {ℓ} {A : Type ℓ} (p : Table ℕ) (n : ℕ) (a : Table A) where
  -- One more waits, on the next channel.
  pub waits-IsOnce : (id : ℕ) → IsOnce p n a → IsOnce (put id n p) (n + 1) a
  waits-IsOnce id o = record {
    silent = λ i ch e. ground (arith, get-put-cases i id n ch p e, o.silent i ch, o.unmade n);
    apart = λ i j ch e f. ground (
      arith,
      get-put-cases i id n ch p e,
      get-put-cases j id n ch p f,
      o.apart i j ch,
      o.silent i ch,
      o.silent j ch,
    );
    once = o.once;
    unmade = λ ch h. o.unmade ch (omega arith);
  }

  -- One that waits is answered.
  pub answers-IsOnce :
      (id ch : ℕ) (v : A) → get id p ≡ some ch → IsOnce p n a → IsOnce (del id p) n ((ch, v) ∷ a)
  answers-IsOnce id ch v e o = record {
    silent = λ i k f. ground (arith, get-del-cases i id k p f, o.silent i k, o.apart i id k);
    apart = λ i j k f g. o.apart i j k (get-del-cases i id k p f).1 (get-del-cases j id k p g).1;
    once = λ k. ground (arith, o.once k, o.silent id ch e);
    unmade = λ k h. ground (arith, o.unmade k, o.silent id ch e);
  }

  -- One gives up waiting.
  pub cancels-IsOnce : (id : ℕ) → IsOnce p n a → IsOnce (del id p) n a
  cancels-IsOnce id o = record {
    silent = λ i k f. o.silent i k (get-del-cases i id k p f).1;
    apart = λ i j k f g. o.apart i j k (get-del-cases i id k p f).1 (get-del-cases j id k p g).1;
    once = o.once;
    unmade = o.unmade;
  }

pub none-IsOnce {ℓ} : {A : Type ℓ} → IsOnce {A = A} [] 0 []
unfolding get
none-IsOnce = record {
  silent = λ id ch e. absurd (ground arith);
  apart = λ i j ch e f. absurd (ground arith);
  once = λ ch. omega arith;
  unmade = λ ch h. refl;
}
