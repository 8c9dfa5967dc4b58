-- ===== src/Index.antt =====
-- The index: the rows that internal/database keeps of the drive.
pub mod Like
pub mod Tree
pub mod Messages
