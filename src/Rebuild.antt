-- ===== src/Rebuild.antt =====
-- The index rebuilt from a channel: internal/indexer/indexer.go. The maps of the source are lists, so
-- one order of their entries is fixed where Go takes any.
pub mod Ids
pub mod Resolve
pub mod Scan
pub mod Channel
pub mod Collisions
pub mod Files
pub mod Run
