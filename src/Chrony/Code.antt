-- ===== src/Chrony/Code.antt =====
-- The enumerations of truenas_chrony that are read from a code.
pub mod Status
pub mod SelectState
pub mod Algorithm
pub mod Leap
pub mod AuthMode
pub mod SourceMode
pub mod SourceState
pub mod RoundTrip
