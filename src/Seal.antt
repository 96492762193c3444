-- ===== src/Seal.antt =====
-- The sealing of a secret, src/salt.c.
pub mod Sodium
pub mod Length
pub mod Key
pub mod Box
pub mod Zeroing
