-- ===== src/Replication/Decoder/Dispatch.antt =====
-- replication/decoder.rs: Relation messages, which are entered into the relation cache, `dispatch` and
-- `decode_pgoutput`.
use pg_x.Base.{ℕ, ◌||◌, Option, none, some, ◌==◌, if◌then◌else◌, Result, ok, err}
use pg_x.Map
use pg_x.Map.{nat_eq}
use pg_x.Text.{Bytes, Text}
use pg_x.Replication.Event.{WalEvent, relation}
use pg_x.Replication.Decoder.Buf.{
  Buf, DecodeError, unknown_message, new, read_u8, read_u16, read_u32, read_cstring,
}
use pg_x.Replication.Decoder.Reader.{fail}
use pg_x.Replication.Decoder.Caching.{Caching, ◌>>=◌, ◌>>◌, borrowing, reading, modify, give}
use pg_x.Replication.Decoder.Tuple.{read_columns}
use pg_x.Replication.Decoder.Message.{
  RelationCache, decode_truncate, decode_insert, decode_update, decode_delete,
}

unfoldable pub decode_relation : Caching RelationCache (Option WalEvent)
unfolding read_columns
decode_relation = do
  rel_id ← reading read_u32
  schema ← reading read_cstring
  table ← reading read_cstring
  replica_identity ← reading read_u8
  ncols ← reading read_u16
  columns ← reading (read_columns ncols)
  modify (Map.insert rel_id (record { schema = schema; table = table; columns = columns }))
  give (some (relation rel_id schema table columns))

-- `hex::encode` of the `hex` crate.
module _ (hex_encode : Bytes → Text) where
  unfoldable pub decode_tagged : ℕ → Caching RelationCache (Option WalEvent)
  unfolding decode_relation decode_insert decode_update decode_delete decode_truncate
  decode_tagged tag =
      if tag == b'R'
      then decode_relation
      else if tag == b'I'
      then borrowing (decode_insert hex_encode)
      else if tag == b'U'
      then borrowing (decode_update hex_encode)
      else if tag == b'D'
      then borrowing (decode_delete hex_encode)
      else if tag == b'T'
      then borrowing decode_truncate
      else if tag == b'O' || (tag == b'Y' || tag == b'M')
      then give none
      else reading (fail (unknown_message tag))

  unfoldable pub dispatch : Caching RelationCache (Option WalEvent)
  unfolding decode_tagged
  dispatch = do tag ← reading read_u8; decode_tagged tag

  abbrev pub event_read :
      Result DecodeError (Option WalEvent × Buf) → Result DecodeError (Option WalEvent)
  event_read (ok (event, b)) = ok event
  event_read (err e) = err e

  unfoldable pub decode_pgoutput :
      Bytes → RelationCache → Result DecodeError (Option WalEvent) × RelationCache
  unfolding dispatch new
  decode_pgoutput bytes cache =
      let (outcome, cache') = dispatch cache (new bytes) in (event_read outcome, cache')
