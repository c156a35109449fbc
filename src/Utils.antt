-- ===== src/Utils.antt =====
-- src/utils: reconnection and its delays.
pub mod Backoff
pub mod Numeric
pub mod SessionLoop
