-- ===== src/Pam.antt =====
-- truenas_pam: one PAM transaction, its conversation, and the login sequence over it.
pub mod Code
pub mod Error
pub mod Responses
pub mod Conv
pub mod Libpam
pub mod Transaction
pub mod Settings
pub mod Builder
pub mod Worker
pub mod Stepped
pub mod Authenticator
pub mod Session
pub mod Order
