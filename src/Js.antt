-- ===== src/Js.antt =====
-- What the sources take from the JavaScript runtime: typed arrays and 32-bit conversions.
pub mod Bytes
