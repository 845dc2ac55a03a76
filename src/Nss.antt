-- ===== src/Nss.antt =====
-- The name service lookups of truenas_nss.
pub mod Error
pub mod Service
pub mod Settled
pub mod Groups
