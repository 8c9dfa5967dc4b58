-- ===== src/Transfer.antt =====
-- What decides when a transfer may run, and through which account: internal/drive.
pub mod Quota
pub mod Limiter
pub mod Session
pub mod Lease
pub mod Schedule
