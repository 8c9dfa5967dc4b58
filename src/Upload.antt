-- ===== src/Upload.antt =====
-- Uploads: the segments of a file (drive/upload.go, config/config.go), the bitset of those that
-- have landed (database/models.go) and the row of the transfer (database/jobs.go).
pub mod Geometry
pub mod Mask
pub mod Job
