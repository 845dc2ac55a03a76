-- ===== src/Jsonrpc.antt =====
-- JSON-RPC 2.0, truenas_jsonrpc/src.
pub mod Frame
pub mod Json
pub mod ErrorObject
pub mod Request
pub mod Client
pub mod Response
pub mod Reply
