-- ===== src/Tags/RoundTrip.antt =====
-- Decode undoes EncodeDir and EncodeFile.
pub mod Tokens
pub mod Finish
pub mod Human
pub mod Dirs
pub mod Files
pub mod Foreign
pub mod Examples
