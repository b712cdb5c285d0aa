-- ===== src/Protocol.antt =====
-- libs/jwst-codec/src/protocol: the messages of the sync protocol and the scanner over them.
pub mod Awareness
pub mod Message
pub mod Scanner
pub mod Encode
