-- ===== src/Replication/Error.antt =====
-- replication/error.rs: what ends a replication session. A text that the source formats is a
-- constructor with what it is formatted of.
use pg_x.Base.{ℕ, List}
use pg_x.Base.Int.{ℤ}
use pg_x.Text.{Text}

pub data ProtocolError : Type 0 where
  empty_copy_data : ProtocolError
  xlog_data_too_short keep_alive_too_short unknown_kind : ℕ → ProtocolError
  truncated_i8 truncated_i32 truncated_i64 : ProtocolError
  invalid_length : ℤ → ProtocolError
  too_large : ℕ → ProtocolError
  auth_too_short : ProtocolError

pub data AuthError : Type 0 where
  unsupported : ℤ → AuthError
  no_scram : (mechanisms : List Text) → AuthError
  unexpected_code : (code expected : ℤ) → AuthError
  nonce_mismatch invalid_salt missing_nonce missing_salt missing_iterations : AuthError
  server_error : Text → AuthError
  missing_signature invalid_signature signature_mismatch : AuthError

pub data ReplError : Type 0 where
  io : ReplError
  protocol : ProtocolError → ReplError
  server : Text → ReplError
  auth : AuthError → ReplError
