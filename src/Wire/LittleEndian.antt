-- ===== src/Wire/LittleEndian.antt =====
-- `to_le_bytes` and `from_le_bytes` of u16 and u32.
use busrt.Base.{
  ℕ, zero, suc, ◌+◌, ◌*◌, ◌/◌, ◌%◌, ◌^◌, ◌<◌, ◌≡◌, refl, [], ◌∷◌, arith, length, Bytes,
}

-- `to_le w n` are the w low bytes of n, the lowest first.
unfoldable pub to_le : ℕ → ℕ → Bytes
to_le zero n = []
to_le (suc w) n = n % 256 ∷ to_le w (n / 256)

unfoldable pub from_le : Bytes → ℕ
from_le [] = 0
from_le (b ∷ bs) = b + 256 * from_le bs

pub length-to_le : (w n : ℕ) → length (to_le w n) ≡ w
unfolding to_le
length-to_le zero n = refl
length-to_le (suc w) n = omega (arith, length-to_le w (n / 256))

pub from_le-to_le_u16 : (n : ℕ) → n < 2 ^ 16 → from_le (to_le 2 n) ≡ n
unfolding to_le from_le
from_le-to_le_u16 n h = omega arith

pub from_le-to_le_u32 : (n : ℕ) → n < 2 ^ 32 → from_le (to_le 4 n) ≡ n
unfolding to_le from_le
from_le-to_le_u32 n h = omega arith
