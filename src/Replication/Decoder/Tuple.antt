-- ===== src/Replication/Decoder/Tuple.antt =====
-- Tuples and column definitions of replication/decoder.rs: `decode_tuple` and the column loop of
-- `decode_relation`.
use pg_x.Base.{
  ℕ, zero, suc, ◌+◌, ◌%◌, Bool, none, some, List, [], ◌∷◌, ◌++◌, ◌==◌, if◌then◌else◌, get_elem?,
}
use pg_x.Map
use pg_x.Map.{text_key}
use pg_x.Text.{Bytes, Text, codes}
use pg_x.Text.Utf8.{from_utf8_lossy}
use pg_x.Replication.Event.{ColVal, text, null, unchanged, Row, ColumnDef}
use pg_x.Replication.Decoder.Buf.{
  Reader, unknown_column_kind, read_u8, read_u16, read_u32, read_i32, read_bytes, read_cstring,
}
use pg_x.Replication.Decoder.Reader.{pure, fail, ◌>>=◌}

-- `(flags & 0x01) != 0` and `(options & 0x02) != 0`
abbrev pub bit0 : ℕ → Bool
bit0 flags = flags % 2 == 1

unfoldable pub column_name : List ColumnDef → ℕ → Text
column_name columns i = elim (get_elem? columns i) [ none ↦ codes "?" | some c ↦ c.name ]

-- One turn of the column loop of `decode_relation`.
unfoldable pub read_column : Reader ColumnDef
read_column = do
  flags ← read_u8
  name ← read_cstring
  type_id ← read_u32
  type_mod ← read_i32
  pure (record { name = name; is_key = bit0 flags; type_id = type_id; type_modifier = type_mod })

unfoldable pub read_columns : ℕ → Reader (List ColumnDef)
unfolding read_column
read_columns zero = pure []
read_columns (suc n) = do c ← read_column; cs ← read_columns n; pure (c ∷ cs)

-- `hex::encode` of the `hex` crate.
module _ (hex_encode : Bytes → Text) where
  -- The match on the column's kind.
  unfoldable pub read_value : ℕ → Reader ColVal
  read_value kind =
      if kind == b'n'
      then pure null
      else if kind == b'u'
      then pure unchanged
      else if kind == b't'
      then (do len ← read_u32; bytes ← read_bytes len; pure (text (from_utf8_lossy bytes)))
      else if kind == b'b'
      then (do
        len ← read_u32
        bytes ← read_bytes len
        pure (text (codes "\\x" ++ hex_encode bytes)))
      else fail (unknown_column_kind kind)

  -- The loop of `decode_tuple`: the columns from `i` on, `n` of them left.
  unfoldable pub read_values : List ColumnDef → ℕ → ℕ → Row → Reader Row
  unfolding read_value column_name
  read_values columns zero i row = pure row
  read_values columns (suc n) i row = do
    kind ← read_u8
    val ← read_value kind
    read_values columns n (i + 1) (Map.insert (column_name columns i) val row)

  unfoldable pub decode_tuple : List ColumnDef → Reader Row
  unfolding read_values
  decode_tuple columns = do ncols ← read_u16; read_values columns ncols 0 []
