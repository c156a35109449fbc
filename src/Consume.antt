-- ===== src/Consume.antt =====
-- src/consumer and src/commands/consume_session.rs: messages from a broker to a sink.
pub mod DeliveryTag
pub mod Dedupe
pub mod Session
pub mod Kafka
