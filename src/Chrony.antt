-- ===== src/Chrony.antt =====
-- The client of chronyd's command protocol (truenas_chrony/src).
pub mod Code
pub mod Error
pub mod Types
pub mod Wire
pub mod Tracking
pub mod Auth
pub mod Source
pub mod Selection
pub mod Totals
pub mod Request
pub mod Client
pub mod Exchange
