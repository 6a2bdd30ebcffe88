-- ===== src/Wire.antt =====
-- What the code takes from the standard library to read and write frames: little-endian numbers,
-- splitting at a zero byte, UTF-8 validity, and `read_exact` on a byte stream.
pub mod LittleEndian
pub mod Split
pub mod Utf8
pub mod Source
pub mod Order
