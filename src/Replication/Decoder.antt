-- ===== src/Replication/Decoder.antt =====
-- replication/decoder.rs: the decoder of `pgoutput` messages.
pub mod Buf
pub mod Reader
pub mod Tuple
pub mod Caching
pub mod Message
pub mod Dispatch
pub mod Decodes
pub mod DecodesFrom
pub mod Wire
pub mod Tuples
pub mod RoundTrip
pub mod Yields
pub mod Keeps
pub mod Cache
