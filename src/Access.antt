-- ===== src/Access.antt =====
-- What an account may do.
pub mod Perms
