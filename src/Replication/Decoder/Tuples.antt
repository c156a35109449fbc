-- ===== src/Replication/Decoder/Tuples.antt =====
-- The readers of column definitions and tuples of replication/decoder.rs on their encodings.
use pg_x.Base.{
  ℕ, ◌+◌, ◌*◌, ◌<◌, ◌≡◌, refl, ◌⊎◌, inl, inr, Bool, true, false, some, List, [], ◌∷◌, ◌++◌, map,
  arith, if◌then◌else◌, length, drop, All, drop-suc, drop-suc_nil, get_elem?-drop,
  get_elem?-drop_nil,
}
use pg_x.Map
use pg_x.Map.{text_key}
use native.Mathlib.Numerals.{add-one}
use pg_x.Text.{Bytes, Text, codes}
use pg_x.Text.Utf8.{from_utf8_lossy, from_utf8_lossy-is_utf8}
use pg_x.Word.{u32_mod}
use pg_x.Replication.Event.{ColVal, text, null, unchanged, Row, ColumnDef, insert_all}
use pg_x.Replication.Decoder.Buf.{read_u8, read_u32, read_bytes}
use pg_x.Replication.Decoder.Reader.{pure, ◌>>=◌, >>=_assoc}
use pg_x.Replication.Decoder.Tuple.{
  bit0, column_name, read_column, read_columns, read_value, read_values, decode_tuple,
}
use pg_x.Replication.Decoder.Message.{decode_old}
use pg_x.Replication.Decoder.Decodes.{
  Decodes, Decodes-bind, Decodes-map, Decodes-pure, read_u8-Decodes, read_u16-Decodes,
  read_u32-Decodes, read_i32-Decodes, read_bytes-Decodes, read_cstring-Decodes,
}
use pg_x.Replication.Decoder.Wire.{
  Cell, sql_null, not_sent, text_value, binary_value, WireColumn, concat_map, encode_cell,
  encode_tuple, encode_column, IsCell, IsTuple, IsColumn, value_of, named, row_of, column_of, byte,
  u32,
}
use mathlib.Core.List.{append-nil}
use mathlib.Core.Path.{subst}

flags_bit0 : (is_key : Bool) (other : ℕ) → bit0 (other * 2 + (if is_key then 1 else 0)) ≡ is_key
flags_bit0 true other = ground arith
flags_bit0 false other = ground arith

read_column-Decodes :
    (c : WireColumn) → IsColumn c → Decodes read_column (encode_column c) (column_of c)
unfolding read_column
read_column-Decodes c h = Decodes-bind _ (read_u8-Decodes _) (
    Decodes-bind _ (read_cstring-Decodes h.name_ok) (
      Decodes-bind _ (read_u32-Decodes c.type_id h.type_id_ok)
        (rw flags_bit0 (Decodes-map _ (read_i32-Decodes c.type_modifier h.modifier_ok)))))

pub read_columns-Decodes :
    (cs : List WireColumn)
    → All IsColumn cs
    → Decodes (read_columns (length cs)) (concat_map encode_column cs) (map column_of cs)
unfolding read_columns
read_columns-Decodes [] h = Decodes-pure []
read_columns-Decodes (c ∷ cs) h =
    Decodes-bind _ (read_column-Decodes c h.0) (Decodes-map _ (read_columns-Decodes cs h.1))

module _ (hex_encode : Bytes → Text) where
  bytes_value :
      (s : Bytes) (g : Bytes → ColVal)
      → length s < u32_mod
      → Decodes
          (do len ← read_u32; bytes ← read_bytes len; pure (g bytes))
          (u32 (length s) ++ s)
          (g s)
  bytes_value s g h =
      Decodes-bind _ (read_u32-Decodes (length s) h) (Decodes-map g (read_bytes-Decodes s))

  read_cell-Decodes :
      (c : Cell)
      → IsCell c
      → Decodes (read_u8 >>= read_value hex_encode) (encode_cell c) (value_of hex_encode c)
  unfolding read_value
  read_cell-Decodes sql_null h =
      rw (← append-nil (byte b'n')) (Decodes-bind _ (read_u8-Decodes b'n') (Decodes-pure null))
  read_cell-Decodes not_sent h =
      rw (← append-nil (byte b'u')) (Decodes-bind _ (read_u8-Decodes b'u') (Decodes-pure unchanged))
  read_cell-Decodes (text_value s) h = Decodes-bind _ (read_u8-Decodes b't') (
      subst (λ t. Decodes (read_value hex_encode b't') (u32 (length s) ++ s) (text t))
        (from_utf8_lossy-is_utf8 s h.1) (bytes_value s (λ x. text (from_utf8_lossy x)) h.0))
  read_cell-Decodes (binary_value s) h =
      Decodes-bind _ (read_u8-Decodes b'b')
        (bytes_value s (λ x. text (codes "\\x" ++ hex_encode x)) h)

  -- One cell more is one insertion more, under the name of its column.
  named_step :
      (columns : List ColumnDef) (i : ℕ) (left : List ColumnDef) (c : Cell) (cells : List Cell)
      (row : Row)
      → drop i columns ≡ left
      → insert_all
          (named hex_encode (drop (i + 1) columns) cells)
          (Map.insert (column_name columns i) (value_of hex_encode c) row)
        ≡ insert_all (named hex_encode left (c ∷ cells)) row
  unfolding insert_all column_name
  named_step columns i [] c cells row h =
      rw (add-one, drop-suc_nil i columns h, get_elem?-drop_nil i columns h, column_name)
  named_step columns i (d ∷ left) c cells row h =
      rw (add-one, drop-suc i columns h, get_elem?-drop i columns h, column_name)

  pub read_values-Decodes :
      (cells : List Cell) (columns : List ColumnDef) (i : ℕ) (row : Row)
      → All IsCell cells
      → Decodes
          (read_values hex_encode columns (length cells) i row)
          (concat_map encode_cell cells)
          (insert_all (named hex_encode (drop i columns) cells) row)
  unfolding read_values insert_all
  read_values-Decodes [] columns i row h = Decodes-pure row
  read_values-Decodes (c ∷ cells) columns i row h =
      let g = λ (v : ColVal).
        read_values hex_encode columns (length cells) (i + 1)
          (Map.insert (column_name columns i) v row) in
      let ih =
        read_values-Decodes cells columns (i + 1)
          (Map.insert (column_name columns i) (value_of hex_encode c) row) h.1 in
      rw
        (
          >>=_assoc read_u8 (read_value hex_encode) g,
          ← named_step columns i (drop i columns) c cells row refl,
        )
        (Decodes-bind g (read_cell-Decodes c h.0) ih)

  pub decode_tuple-Decodes :
      (columns : List ColumnDef) (cells : List Cell)
      → IsTuple cells
      → Decodes
          (decode_tuple hex_encode columns)
          (encode_tuple cells)
          (row_of hex_encode columns cells)
  unfolding decode_tuple
  decode_tuple-Decodes columns cells h =
      Decodes-bind _ (read_u16-Decodes (length cells) h.0)
        (read_values-Decodes cells columns 0 [] h.1)

  -- The tuple of an old row, and the flag byte that announces the new one.
  pub decode_old-Decodes :
      (columns : List ColumnDef) (flag new_flag : ℕ) (old : List Cell)
      → (flag ≡ b'O') ⊎ (flag ≡ b'K')
      → IsTuple old
      → Decodes
          (decode_old hex_encode columns flag)
          (encode_tuple old ++ byte new_flag)
          (some (row_of hex_encode columns old))
  unfolding decode_old
  decode_old-Decodes columns flag new_flag old (inl e) h = rw e (
      Decodes-bind _ (decode_tuple-Decodes columns old h)
        (Decodes-map _ (read_u8-Decodes new_flag)))
  decode_old-Decodes columns flag new_flag old (inr e) h = rw e (
      Decodes-bind _ (decode_tuple-Decodes columns old h)
        (Decodes-map _ (read_u8-Decodes new_flag)))
