-- ===== src/Reader.antt =====
-- internal/reader: a file that Telegram stores as several documents, read as one stream of bytes.
pub mod Plan
pub mod Chunk
pub mod File
