-- ===== src/Decoders.antt =====
-- packages/core/src/detection-engine/encoding-decoders.ts: the decoders of escaped and encoded
-- contents.
pub mod Utf8
pub mod Bits
pub mod Throws
pub mod Escapes
pub mod Unquote
pub mod Overlong
pub mod Tests
