-- ===== src/Api.antt =====
-- What the HTTP interface reads from a request.
pub mod Range
