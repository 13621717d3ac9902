-- ===== src/Model.antt =====
-- The records of internal/model that the other parts share, and what the key/value store holds.
pub mod Payload
pub mod User
pub mod Client
