-- ===== src/Xdr.antt =====
-- The XDR codec (truenas_xdr/src).
pub mod Error
pub mod Strict
pub mod Unit4
pub mod Signed
pub mod Utf8
pub mod De
pub mod Ser
pub mod Codec
