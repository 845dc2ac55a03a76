-- ===== src/Xdr/Codec.antt =====
-- Whole values through the codec: the types that clients declare as shapes, what their
-- `Serialize` and `Deserialize` impls call, and what the wire holds.
pub mod Shape
pub mod Drive
pub mod Wire
pub mod Reads
pub mod Readers
pub mod ReadsSeq
pub mod RoundTrip
pub mod Writes
