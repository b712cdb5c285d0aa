-- ===== src/Codec.antt =====
-- libs/jwst-codec/src/codec: variable-length integers, buffers and strings.
pub mod Integer
pub mod Utf8
pub mod Buffer
