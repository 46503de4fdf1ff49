-- ===== src/Decoders.antt =====
-- core/decoders: the decoders of the rectangle encodings. `Result` is what a call of `decodeRect`
-- does, `Takes` and `Resume` are the reasoning that the decoders share; a module for each decoder.
pub mod Result
pub mod Takes
pub mod Resume
pub mod Raw
pub mod CopyRect
pub mod Rre
pub mod Hextile
pub mod HextileReads
pub mod HextileLaws
mod Tests
