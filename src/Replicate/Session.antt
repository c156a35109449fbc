-- ===== src/Replicate/Session.antt =====
-- commands/replicate/replicate_session.rs: the session from the source to the sinks.
pub mod Gate
pub mod Run
pub mod Progress
pub mod Applied
