-- ===== src/Names.antt =====
-- Paths of the drive and an account's view of them: internal/drive.
pub mod Path
pub mod Scope
