-- ===== src/Tags.antt =====
-- Captions: internal/tagcodec.
pub mod Utf8
pub mod Base32
pub mod Names
pub mod Words
pub mod Numbers
pub mod Caption
pub mod Record
pub mod Decode
pub mod RoundTrip
