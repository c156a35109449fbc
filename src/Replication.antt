-- ===== src/Replication.antt =====
-- src/replication: the wire protocol of logical replication.
pub mod Lsn
pub mod Event
pub mod Decoder
pub mod Client
pub mod Error
pub mod BytesCrate
pub mod Proto
pub mod Framing
pub mod Scram
pub mod Messages
