-- ===== src/Replication/Proto/RoundTrip.antt =====
-- The payloads of the replication protocol as a server writes them, read back by proto.rs.
use mathlib.Core.List.{append-nil, append_assoc}
use pg_x.Base.{
  ℕ, not, ◌==◌, ◌+◌, ◌<◌, ◌≡◌, refl, ltb, some, [], ◌∷◌, ◌++◌, Bool, true, false, if◌then◌else◌,
  length, take, drop, take-append, drop-append, length-append, ok, arith,
}
use pg_x.Base.Int.{
  ℤ, InRange, to_signed, to_unsigned, to_unsigned-lt, to_signed-to_unsigned, to_unsigned-to_signed,
}
use pg_x.Text.{Bytes}
use pg_x.Word.{to_be_bytes, length-to_be_bytes, u64_roundtrip, u32_roundtrip, u32_mod, u64_mod}
use pg_x.Replication.BytesCrate.{BytesCrate, BytesRules}
use pg_x.Replication.Proto.{
  ReplicationCopyData, xlog_data, keep_alive, parse_xlog_data, parse_keep_alive, parse_copy_data,
  PgOutputBoundary, begin_boundary, commit_boundary, take_i32, take_i64, parse_begin,
  parse_pgoutput_boundary,
}

-- An `Int64` on the wire.
int64 : ℤ → Bytes
int64 z = to_be_bytes 8 (to_unsigned u64_mod z)

-- CopyData of the protocol's documentation: XLogData and the primary's keepalive.
unfoldable pub copy_data_wire : ReplicationCopyData → Bytes
unfolding int64
copy_data_wire (xlog_data wal_start wal_end time bytes) =
    b'w' ∷ (to_be_bytes 8 wal_start ++ (to_be_bytes 8 wal_end ++ (int64 time ++ bytes)))
copy_data_wire (keep_alive wal_end time reply) =
    b'k' ∷ (to_be_bytes 8 wal_end ++ (int64 time ++ (if reply then 1 else 0) ∷ []))

-- The fields fit their words.
abbrev pub Fits : ReplicationCopyData → Type 0
Fits (xlog_data wal_start wal_end time bytes) =
    (wal_start < u64_mod) × (wal_end < u64_mod) × InRange u64_mod time
Fits (keep_alive wal_end time reply) = (wal_end < u64_mod) × InRange u64_mod time

flag_set : (b : Bool) → not ((if b then 1 else 0) == 0) ≡ b
flag_set true = refl
flag_set false = refl

module _ (c : BytesCrate) (h : BytesRules c) where
  get-lsn :
      (l : ℕ) (rest : Bytes)
      → l < u64_mod
      → c.get_i64 (to_be_bytes 8 l ++ rest) ≡ (to_signed u64_mod l, rest)
  get-lsn l rest le =
      rw (h.get_i64_rule (to_be_bytes 8 l) rest (length-to_be_bytes 8 l), u64_roundtrip l le)

  get-int64 : (z : ℤ) (rest : Bytes) → InRange u64_mod z → c.get_i64 (int64 z ++ rest) ≡ (z, rest)
  unfolding int64
  get-int64 z rest r = rw (
    get-lsn (to_unsigned u64_mod z) rest (to_unsigned-lt 18446744073709551615 z),
    to_signed-to_unsigned u64_mod z r,
  )

  eight_more : (l : ℕ) (rest : Bytes) → length (to_be_bytes 8 l ++ rest) ≡ 8 + length rest
  eight_more l rest = rw (length-append (to_be_bytes 8 l) rest, length-to_be_bytes 8 l)

  copied : (bytes : Bytes) → c.copy_to_bytes (length bytes) bytes ≡ (bytes, [])
  copied bytes = let e = h.copy_to_bytes_rule bytes [] in let plain = append-nil bytes in cc

  parse_xlog_data-wire :
      (s e : ℕ) (time : ℤ) (bytes : Bytes)
      → s < u64_mod
      → e < u64_mod
      → InRange u64_mod time
      → parse_xlog_data c (to_be_bytes 8 s ++ (to_be_bytes 8 e ++ (int64 time ++ bytes)))
        ≡ ok (xlog_data s e time bytes)
  unfolding parse_xlog_data int64
  parse_xlog_data-wire s e time bytes hs he ht =
      let l1 = eight_more s (to_be_bytes 8 e ++ (int64 time ++ bytes)) in
      let l2 = eight_more e (int64 time ++ bytes) in
      let l3 = eight_more (to_unsigned u64_mod time) bytes in
      let long : ltb (length (to_be_bytes 8 s ++ (to_be_bytes 8 e ++ (int64 time ++ bytes)))) 24
          ≡ false =
        ground arith in
      rw
        (
          long,
          get-lsn s (to_be_bytes 8 e ++ (int64 time ++ bytes)) hs,
          get-lsn e (int64 time ++ bytes) he,
          get-int64 time bytes ht,
          copied bytes,
          to_unsigned-to_signed u64_mod s hs,
          to_unsigned-to_signed u64_mod e he,
        )
        refl

  parse_keep_alive-wire :
      (e : ℕ) (time : ℤ) (reply : Bool)
      → e < u64_mod
      → InRange u64_mod time
      → parse_keep_alive c (to_be_bytes 8 e ++ (int64 time ++ (if reply then 1 else 0) ∷ []))
        ≡ ok (keep_alive e time reply)
  unfolding parse_keep_alive int64
  parse_keep_alive-wire e time reply he ht =
      let flag : Bytes = (if reply then 1 else 0) ∷ [] in
      let l1 = eight_more e (int64 time ++ flag) in
      let l2 = eight_more (to_unsigned u64_mod time) flag in
      let long : ltb (length (to_be_bytes 8 e ++ (int64 time ++ flag))) 17 ≡ false = ground arith in
      rw
        (
          long,
          get-lsn e (int64 time ++ flag) he,
          get-int64 time flag ht,
          h.get_u8_rule (if reply then 1 else 0) [],
          to_unsigned-to_signed u64_mod e he,
        )
        (rw (flag_set reply) refl)

  -- Every XLogData and every keepalive that a server sends is read back.
  pub parse_copy_data-wire :
      (d : ReplicationCopyData) → Fits d → parse_copy_data c (copy_data_wire d) ≡ ok d
  unfolding parse_copy_data copy_data_wire
  parse_copy_data-wire (xlog_data s e time bytes) (hs, he, ht) =
      rw h.get_u8_rule (parse_xlog_data-wire s e time bytes hs he ht)
  parse_copy_data-wire (keep_alive e time reply) (he, ht) =
      rw h.get_u8_rule (parse_keep_alive-wire e time reply he ht)

-- A word of `n` bytes in front is split off.
take-word : (n x : ℕ) (rest : Bytes) → take n (to_be_bytes n x ++ rest) ≡ to_be_bytes n x
take-word n x rest =
    let e = take-append (to_be_bytes n x) rest in let len = length-to_be_bytes n x in rw len at e

drop-word : (n x : ℕ) (rest : Bytes) → drop n (to_be_bytes n x ++ rest) ≡ rest
drop-word n x rest =
    let e = drop-append (to_be_bytes n x) rest in let len = length-to_be_bytes n x in rw len at e

long_enough : (n x : ℕ) (rest : Bytes) → ltb (length (to_be_bytes n x ++ rest)) n ≡ false
long_enough n x rest =
    let len = length-append (to_be_bytes n x) rest in
    let word = length-to_be_bytes n x in ground arith

take_i64-word :
    (l : ℕ) (rest : Bytes)
    → l < u64_mod
    → take_i64 (to_be_bytes 8 l ++ rest) ≡ ok (to_signed u64_mod l, rest)
unfolding take_i64
take_i64-word l rest le =
    rw (long_enough 8 l rest, take-word 8 l rest, drop-word 8 l rest, u64_roundtrip l le) refl

take_i32-word :
    (x : ℕ) (rest : Bytes)
    → x < u32_mod
    → take_i32 (to_be_bytes 4 x ++ rest) ≡ ok (to_signed u32_mod x, rest)
unfolding take_i32
take_i32-word x rest le =
    rw (long_enough 4 x rest, take-word 4 x rest, drop-word 4 x rest, u32_roundtrip x le) refl

take_i64-int64 :
    (z : ℤ) (rest : Bytes) → InRange u64_mod z → take_i64 (int64 z ++ rest) ≡ ok (z, rest)
unfolding int64
take_i64-int64 z rest r = rw (
  take_i64-word (to_unsigned u64_mod z) rest (to_unsigned-lt 18446744073709551615 z),
  to_signed-to_unsigned u64_mod z r,
)

-- Begin and Commit of the pgoutput format, the Commit with its flags.
unfoldable pub boundary_wire : ℕ → PgOutputBoundary → Bytes
unfolding int64
boundary_wire flags (begin_boundary final_lsn time xid) =
    b'B' ∷ (to_be_bytes 8 final_lsn ++ (int64 time ++ to_be_bytes 4 xid))
boundary_wire flags (commit_boundary lsn end_lsn time) =
    b'C' ∷ flags ∷ (to_be_bytes 8 lsn ++ (to_be_bytes 8 end_lsn ++ int64 time))

abbrev pub BoundaryFits : PgOutputBoundary → Type 0
BoundaryFits (begin_boundary final_lsn time xid) =
    (final_lsn < u64_mod) × InRange u64_mod time × (xid < u32_mod)
BoundaryFits (commit_boundary lsn end_lsn time) =
    (lsn < u64_mod) × (end_lsn < u64_mod) × InRange u64_mod time

-- Every Begin and every Commit is read back, whatever follows it in the message.
pub parse_pgoutput_boundary-wire :
    (flags : ℕ) (b : PgOutputBoundary) (rest : Bytes)
    → BoundaryFits b
    → parse_pgoutput_boundary (boundary_wire flags b ++ rest) ≡ ok (some b)
unfolding parse_pgoutput_boundary parse_begin boundary_wire
parse_pgoutput_boundary-wire flags (begin_boundary l time xid) rest (hl, ht, hx) =
    rw
      (
        append_assoc (to_be_bytes 8 l) (int64 time ++ to_be_bytes 4 xid) rest,
        append_assoc (int64 time) (to_be_bytes 4 xid) rest,
        take_i64-word l (int64 time ++ (to_be_bytes 4 xid ++ rest)) hl,
        take_i64-int64 time (to_be_bytes 4 xid ++ rest) ht,
        take_i32-word xid rest hx,
        to_unsigned-to_signed u64_mod l hl,
        to_unsigned-to_signed u32_mod xid hx,
      )
      refl
parse_pgoutput_boundary-wire flags (commit_boundary l e time) rest (hl, he, ht) =
    rw
      (
        append_assoc (to_be_bytes 8 l) (to_be_bytes 8 e ++ int64 time) rest,
        append_assoc (to_be_bytes 8 e) (int64 time) rest,
        take_i64-word l (to_be_bytes 8 e ++ (int64 time ++ rest)) hl,
        take_i64-word e (int64 time ++ rest) he,
        take_i64-int64 time rest ht,
        to_unsigned-to_signed u64_mod l hl,
        to_unsigned-to_signed u64_mod e he,
      )
      refl
