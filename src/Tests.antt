-- ===== src/Tests.antt =====
-- Concrete runs of the models, and the theorems at concrete inputs.
mod Xdr
mod MetaFmt
mod Frame
mod Siphash
mod Chrony
mod Exchange
mod Jsonrpc
mod Pam
mod Nss
mod Client
