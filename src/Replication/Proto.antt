-- ===== src/Replication/Proto.antt =====
-- replication/proto.rs: the payloads of CopyData messages, and the transaction boundaries in them.
pub mod RoundTrip
use pg_x.Base.{
  ℕ, Option, none, some, [], ◌∷◌, ◌++◌, Bool, not, ◌==◌, ltb, if◌then◌else◌, length, take, drop,
  Result, ok, err, ◌>>=◌,
}
use pg_x.Base.Int.{ℤ, to_signed, to_unsigned}
use pg_x.Text.{Bytes}
use pg_x.Word.{from_be_bytes, to_be_bytes, u8_mod, u32_mod, u64_mod}
use pg_x.Replication.Lsn.{Lsn}
use pg_x.Replication.Error.{
  ReplError, protocol, empty_copy_data, xlog_data_too_short, keep_alive_too_short, unknown_kind,
  truncated_i8, truncated_i32, truncated_i64,
}
use pg_x.Replication.BytesCrate.{BytesCrate}

pub data ReplicationCopyData : Type 0 where
  xlog_data :
      (wal_start wal_end : Lsn) (server_time_micros : ℤ) (bytes : Bytes) → ReplicationCopyData
  keep_alive :
      (wal_end : Lsn) (server_time_micros : ℤ) (reply_requested : Bool) → ReplicationCopyData

abbrev pub as_u64 : ℤ → ℕ
as_u64 = to_unsigned u64_mod

module _ (c : BytesCrate) where
  unfoldable pub parse_xlog_data : Bytes → Result ReplError ReplicationCopyData
  unfolding to_unsigned
  parse_xlog_data b =
      if ltb (length b) 24
      then err (protocol (xlog_data_too_short (length b)))
      else let (wal_start, b1) = c.get_i64 b in
        let (wal_end, b2) = c.get_i64 b1 in
        let (server_time_micros, b3) = c.get_i64 b2 in
        let (bytes, b4) = c.copy_to_bytes (length b3) b3 in
        ok (xlog_data (as_u64 wal_start) (as_u64 wal_end) server_time_micros bytes)

  unfoldable pub parse_keep_alive : Bytes → Result ReplError ReplicationCopyData
  unfolding to_unsigned
  parse_keep_alive b =
      if ltb (length b) 17
      then err (protocol (keep_alive_too_short (length b)))
      else let (wal_end, b1) = c.get_i64 b in
        let (server_time_micros, b2) = c.get_i64 b1 in
        let (reply, b3) = c.get_u8 b2 in
        ok (keep_alive (as_u64 wal_end) server_time_micros (not (reply == 0)))

  unfoldable pub parse_copy_data : Bytes → Result ReplError ReplicationCopyData
  unfolding parse_xlog_data parse_keep_alive
  parse_copy_data [] = err (protocol empty_copy_data)
  parse_copy_data (x ∷ xs) =
      let (kind, b) = c.get_u8 (x ∷ xs) in
      if kind == b'w'
      then parse_xlog_data b
      else if kind == b'k'
      then parse_keep_alive b
      else err (protocol (unknown_kind kind))

-- `as i64` keeps the bits of the LSN.
unfoldable pub encode_standby_status_update : Lsn → ℤ → Bool → Bytes
encode_standby_status_update applied client_time_micros reply_requested =
    b'r'
    ∷ (to_be_bytes 8 applied
        ++ (to_be_bytes 8 applied
            ++ (to_be_bytes 8 applied
                ++ (to_be_bytes 8 (to_unsigned u64_mod client_time_micros)
                    ++ (if reply_requested then 1 else 0) ∷ []))))

pub data PgOutputBoundary : Type 0 where
  begin_boundary : (final_lsn : Lsn) (commit_time : ℤ) (xid : ℕ) → PgOutputBoundary
  commit_boundary : (lsn end_lsn : Lsn) (commit_time : ℤ) → PgOutputBoundary

abbrev pub Taker : Type 0 → Type 0
Taker A = Bytes → Result ReplError (A × Bytes)

unfoldable pub take_i8 : Taker ℤ
take_i8 [] = err (protocol truncated_i8)
take_i8 (x ∷ p) = ok (to_signed u8_mod x, p)

unfoldable pub take_i32 : Taker ℤ
take_i32 p =
    if ltb (length p) 4
    then err (protocol truncated_i32)
    else ok (to_signed u32_mod (from_be_bytes (take 4 p)), drop 4 p)

unfoldable pub take_i64 : Taker ℤ
take_i64 p =
    if ltb (length p) 8
    then err (protocol truncated_i64)
    else ok (to_signed u64_mod (from_be_bytes (take 8 p)), drop 8 p)

unfoldable pub parse_begin : Bytes → Result ReplError (Option PgOutputBoundary)
unfolding take_i64 take_i32
parse_begin p = do
  final_lsn ← take_i64 p
  commit_time ← take_i64 final_lsn.1
  xid ← take_i32 commit_time.1
  ok (some (begin_boundary (as_u64 final_lsn.0) commit_time.0 (to_unsigned u32_mod xid.0)))

unfoldable pub parse_commit : Bytes → Result ReplError (Option PgOutputBoundary)
unfolding take_i8 take_i64
parse_commit p = do
  flags ← take_i8 p
  lsn ← take_i64 flags.1
  end_lsn ← take_i64 lsn.1
  commit_time ← take_i64 end_lsn.1
  ok (some (commit_boundary (as_u64 lsn.0) (as_u64 end_lsn.0) commit_time.0))

unfoldable pub parse_pgoutput_boundary : Bytes → Result ReplError (Option PgOutputBoundary)
unfolding parse_begin parse_commit
parse_pgoutput_boundary [] = ok none
parse_pgoutput_boundary (tag ∷ p) =
    if tag == b'B' then parse_begin p else if tag == b'C' then parse_commit p else ok none
