-- ===== src/Wire/Order.antt =====
-- `Ord` of str: by the bytes.
use busrt.Base.{◌≡◌, refl, ◌≢◌, [], ◌∷◌, arith, ltb, if◌then◌else◌, Bytes}

-- Where one text stands to another
pub data Order : Type 0 where
  before same after : Order

unfoldable pub order : Bytes → Bytes → Order
order [] [] = same
order [] (b ∷ bs) = before
order (a ∷ bs) [] = after
order (a ∷ cs) (b ∷ bs) =
    let rest = order cs bs in if ltb a b then before else if ltb b a then after else rest

pub order-flip : (a b : Bytes) → order a b ≡ after → order b a ≡ before
unfolding order
order-flip [] [] h = absurd (ground arith)
order-flip [] (b ∷ bs) h = absurd (ground arith)
order-flip (a ∷ cs) [] h = refl
order-flip (a ∷ cs) (b ∷ bs) h = ground (arith, order-flip cs bs)

pub order-same : (a b : Bytes) → order a b ≡ same → a ≡ b
unfolding order
order-same [] [] h = refl
order-same [] (b ∷ bs) h = absurd (ground arith)
order-same (a ∷ cs) [] h = absurd (ground arith)
order-same (a ∷ cs) (b ∷ bs) h = ground (arith, order-same cs bs)

pub order-asym : (a b : Bytes) → order a b ≡ before → order b a ≢ before
unfolding order
order-asym [] [] h k = ground arith
order-asym [] (b ∷ bs) h k = ground arith
order-asym (a ∷ cs) [] h k = ground arith
order-asym (a ∷ cs) (b ∷ bs) h k = ground (arith, order-asym cs bs)

pub order_trans : (a b c : Bytes) → order a b ≡ before → order b c ≡ before → order a c ≡ before
unfolding order
order_trans [] b [] h k = ground arith
order_trans [] b (z ∷ c) h k = refl
order_trans (x ∷ a) [] c h k = ground arith
order_trans (x ∷ a) (y ∷ b) [] h k = ground arith
order_trans (x ∷ a) (y ∷ b) (z ∷ c) h k = ground (arith, order_trans a b c)
