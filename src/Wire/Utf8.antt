-- ===== src/Wire/Utf8.antt =====
-- `std::str::from_utf8`: whether a byte string is well-formed UTF-8.
use busrt.Base.{ℕ, zero, suc, Bool, true, false, ◌&&◌, [], ◌∷◌, leb, ◌==◌, if◌then◌else◌, Bytes}

abbrev within : ℕ → ℕ → ℕ → Bool
within lo hi c = leb lo c && leb c hi

-- What may follow: nothing open, or the range of the next byte and the number of further
-- continuation bytes behind it.
pub data Open : Type 0 where
  start : Open
  next : ℕ → ℕ → ℕ → Open
  bad : Open

first_byte : ℕ → Open
first_byte c =
    if leb c 0x7f
    then start
    else if within 0xc2 0xdf c
    then next 0x80 0xbf 0
    else if c == 0xe0
    then next 0xa0 0xbf 1
    else if c == 0xed
    then next 0x80 0x9f 1
    else if within 0xe1 0xef c
    then next 0x80 0xbf 1
    else if c == 0xf0
    then next 0x90 0xbf 2
    else if within 0xf1 0xf3 c
    then next 0x80 0xbf 2
    else if c == 0xf4
    then next 0x80 0x8f 2
    else bad

after : ℕ → Open
after zero = start
after (suc n) = next 0x80 0xbf n

utf8_step : Open → ℕ → Open
unfolding first_byte after
utf8_step start c = first_byte c
utf8_step (next lo hi n) c = if within lo hi c then after n else bad
utf8_step bad c = bad

utf8_from : Open → Bytes → Bool
unfolding utf8_step
utf8_from start [] = true
utf8_from (next _ _ _) [] = false
utf8_from bad [] = false
utf8_from o (c ∷ cs) = utf8_from (utf8_step o c) cs

unfoldable pub is_utf8 : Bytes → Bool
unfolding utf8_from
is_utf8 = utf8_from start
