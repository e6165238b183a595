-- ===== src/Api.antt =====
-- internal/api: the guards of the pairing endpoints.
pub mod Attempts
pub mod Proof
