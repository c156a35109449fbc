-- ===== src/Replicate.antt =====
-- src/commands/replicate: filters, transforms, the applier and the session.
pub mod TablePrefix
pub mod Transforms
pub mod Filter
pub mod Applier
pub mod Session
