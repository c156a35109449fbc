-- ===== src/Downstream.antt =====
-- src/downstream: what sends documents on.
pub mod Bulk
