-- ===== src/Protocol/Text.antt =====
-- Text fields of frames: UTF-8 validation and the error of a frame that lacks a field.
use busrt.Wire.Utf8.{is_utf8}
use busrt.Protocol.Error.{Result, ok, err, Error, invalid, error_of, lit}
use busrt.Base.{◌≡◌, true, [], ◌∷◌, if◌then◌else◌, Bytes}

abbrev pub broken_frame : Error
broken_frame = error_of invalid (lit "broken frame" ∷ [])

-- `std::str::from_utf8(b)?`; the text of the error is the library's.
unfoldable pub from_utf8 : Bytes → Result Bytes
unfolding is_utf8
from_utf8 b = if is_utf8 b then ok b else err (error_of invalid (lit "invalid utf-8" ∷ []))

-- A field that a frame can carry: UTF-8 text with no zero byte in it.
pub from_utf8-ok : (b : Bytes) → is_utf8 b ≡ true → from_utf8 b ≡ ok b
unfolding from_utf8
from_utf8-ok b h = rw h
