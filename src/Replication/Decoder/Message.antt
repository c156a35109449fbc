-- ===== src/Replication/Decoder/Message.antt =====
-- The messages of replication/decoder.rs whose readers leave the relation cache as it is.
use pg_x.Base.{
  ℕ, zero, suc, ◌/◌, ◌||◌, Option, none, some, List, [], ◌∷◌, ◌++◌, ◌==◌, if◌then◌else◌,
}
use pg_x.Map
use pg_x.Map.{Map, nat_eq}
use pg_x.Text.{Bytes, Text, codes}
use pg_x.Text.Number.{print_dec}
use pg_x.Replication.Event.{
  Row, ColumnDef, WalEvent, insert, update, delete, truncate, qualified_name,
}
use pg_x.Replication.Decoder.Buf.{Reader, unexpected_update_flag, new, read_u8, read_u32}
use pg_x.Replication.Decoder.Reader.{pure, fail, ◌>>=◌}
use pg_x.Replication.Decoder.Tuple.{bit0, decode_tuple}

pub record RelationInfo : Type 0 where
  pub schema : Text
  pub table : Text
  pub columns : List ColumnDef

abbrev pub RelationCache : Type 0
RelationCache = Map ℕ RelationInfo

unfoldable pub unknown_rel : ℕ → RelationInfo
unknown_rel rel_id = record {
  schema = codes "unknown_" ++ print_dec rel_id;
  table = codes "unknown";
  columns = [];
}

-- `rel_cache.get(&rel_id).cloned().unwrap_or_else(|| unknown_rel(rel_id))`
unfoldable pub info_of : RelationCache → ℕ → RelationInfo
unfolding unknown_rel
info_of cache rel_id = elim (Map.get rel_id cache) [ none ↦ unknown_rel rel_id | some info ↦ info ]

-- A decoder of one message that reads the relation cache.
abbrev pub MessageReader : Type 0
MessageReader = RelationCache → Reader (Option WalEvent)

-- The name of a truncated table.
unfoldable pub truncated_name : RelationCache → ℕ → Text
truncated_name cache rid = elim (Map.get rid cache) [
  | some info ↦ qualified_name info.schema info.table
  | none ↦ codes "<rel:" ++ (print_dec rid ++ codes ">")
]

-- The loop of `decode_truncate`, with the two vectors that it fills.
unfoldable pub read_rels : RelationCache → ℕ → List ℕ → List Text → Reader (List ℕ × List Text)
unfolding truncated_name
read_rels cache zero rel_ids tables = pure (rel_ids, tables)
read_rels cache (suc n) rel_ids tables = do
  rid ← read_u32
  read_rels cache n (rel_ids ++ rid ∷ []) (tables ++ truncated_name cache rid ∷ [])

unfoldable pub decode_truncate : MessageReader
unfolding read_rels
decode_truncate cache = do
  nrels ← read_u32
  options ← read_u8
  rels ← read_rels cache nrels [] []
  pure (some (truncate rels.0 rels.1 (bit0 options) (bit0 (options / 2))))

-- `hex::encode` of the `hex` crate.
module _ (hex_encode : Bytes → Text) where
  unfoldable pub decode_insert : MessageReader
  unfolding info_of decode_tuple
  decode_insert cache = do
    rel_id ← read_u32
    flag ← read_u8
    let info = info_of cache rel_id
    new ← decode_tuple hex_encode info.columns
    pure (some (insert rel_id info.schema info.table new))

  -- The old tuple of an update, by its flag.
  unfoldable pub decode_old : List ColumnDef → ℕ → Reader (Option Row)
  unfolding decode_tuple
  decode_old columns flag =
      if flag == b'O' || flag == b'K'
      then (do old_row ← decode_tuple hex_encode columns; new_flag ← read_u8; pure (some old_row))
      else if flag == b'N'
      then pure none
      else fail (unexpected_update_flag flag)

  unfoldable pub decode_update : MessageReader
  unfolding info_of decode_old
  decode_update cache = do
    rel_id ← read_u32
    let info = info_of cache rel_id
    flag ← read_u8
    old ← decode_old info.columns flag
    new ← decode_tuple hex_encode info.columns
    pure (some (update rel_id info.schema info.table old new))

  unfoldable pub decode_delete : MessageReader
  unfolding info_of decode_tuple
  decode_delete cache = do
    rel_id ← read_u32
    flag ← read_u8
    let info = info_of cache rel_id
    old ← decode_tuple hex_encode info.columns
    pure (some (delete rel_id info.schema info.table old))
