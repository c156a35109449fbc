-- ===== src/Replication/Decoder/Wire.antt =====
-- The `pgoutput` message format as PostgreSQL documents it (and the head of
-- replication/decoder.rs repeats): what the server writes, and what each message means.
use pg_x.Base.{
  ℕ, ◌+◌, ◌*◌, ◌<◌, ◌≡◌, ◌⊎◌, Bool, true, Option, none, some, List, [], ◌∷◌, ◌++◌, map,
  if◌then◌else◌, length, All,
}
use pg_x.Base.Int.{ℤ, to_unsigned, InRange}
use pg_x.Map
use pg_x.Map.{nat_eq}
use pg_x.Text.{Bytes, Text, codes}
use pg_x.Text.Utf8.{is_utf8}
use pg_x.Word.{to_be_bytes, u16_mod, u32_mod}
use pg_x.Replication.Event.{
  ColVal, text, null, unchanged, Row, ColumnDef, insert_all, WalEvent, relation, insert, update,
  delete, truncate,
}
use pg_x.Replication.Decoder.Message.{RelationInfo, RelationCache, info_of, truncated_name}
use pg_x.Replication.Decoder.Decodes.{IsName}

-- A column of a tuple on the wire.
pub data Cell : Type 0 where
  sql_null not_sent : Cell
  text_value binary_value : Bytes → Cell

pub record WireColumn : Type 0 where
  pub is_key : Bool
  pub other_flags : ℕ
  pub name : Text
  pub type_id : ℕ
  pub type_modifier : ℤ

pub data Message : Type 0 where
  relation_message :
      (rel_id : ℕ) (schema table : Text) (identity : ℕ) (columns : List WireColumn) → Message
  insert_message : (rel_id flag : ℕ) (new : List Cell) → Message
  update_message : (rel_id : ℕ) (new : List Cell) → Message
  update_old_message : (rel_id flag new_flag : ℕ) (old new : List Cell) → Message
  delete_message : (rel_id flag : ℕ) (old : List Cell) → Message
  truncate_message : (cascade restart_seqs : Bool) (rel_ids : List ℕ) → Message
  -- The bytes behind the tag are not read.
  skipped_message : (tag : ℕ) → Message

abbrev pub u16 : ℕ → Bytes
u16 = to_be_bytes 2

abbrev pub u32 : ℕ → Bytes
u32 = to_be_bytes 4

abbrev pub byte : ℕ → Bytes
byte c = c ∷ []

abbrev pub cstring : Text → Bytes
cstring s = s ++ 0 ∷ []

abbrev pub concat_map {ℓ} : {A : Type ℓ} → (A → Bytes) → List A → Bytes
concat_map f [] = []
concat_map f (x ∷ xs) = f x ++ concat_map f xs

abbrev pub encode_cell : Cell → Bytes
encode_cell sql_null = byte b'n'
encode_cell not_sent = byte b'u'
encode_cell (text_value s) = byte b't' ++ (u32 (length s) ++ s)
encode_cell (binary_value s) = byte b'b' ++ (u32 (length s) ++ s)

abbrev pub encode_tuple : List Cell → Bytes
encode_tuple cells = u16 (length cells) ++ concat_map encode_cell cells

abbrev pub encode_column : WireColumn → Bytes
encode_column c =
    byte (c.other_flags * 2 + (if c.is_key then 1 else 0))
    ++ (cstring c.name ++ (u32 c.type_id ++ u32 (to_unsigned u32_mod c.type_modifier)))

abbrev pub encode : Message → Bytes
encode (relation_message rel_id schema table identity columns) =
    byte b'R'
    ++ (u32 rel_id
        ++ (cstring schema
            ++ (cstring table
                ++ (byte identity ++ (u16 (length columns) ++ concat_map encode_column columns)))))
encode (insert_message rel_id flag new) =
    byte b'I' ++ (u32 rel_id ++ (byte flag ++ encode_tuple new))
encode (update_message rel_id new) = byte b'U' ++ (u32 rel_id ++ (byte b'N' ++ encode_tuple new))
encode (update_old_message rel_id flag new_flag old new) =
    byte b'U'
    ++ (u32 rel_id ++ (byte flag ++ ((encode_tuple old ++ byte new_flag) ++ encode_tuple new)))
encode (delete_message rel_id flag old) =
    byte b'D' ++ (u32 rel_id ++ (byte flag ++ encode_tuple old))
encode (truncate_message cascade restart_seqs rel_ids) =
    byte b'T'
    ++ (u32 (length rel_ids)
        ++ (byte ((if restart_seqs then 2 else 0) + (if cascade then 1 else 0))
            ++ concat_map u32 rel_ids))
encode (skipped_message tag) = byte tag

-- What fits into the format's fields, and can be kept in a Rust `String`.
abbrev pub IsCell : Cell → Type 0
IsCell sql_null = Unit
IsCell not_sent = Unit
IsCell (text_value s) = (length s < u32_mod) × (is_utf8 s ≡ true)
IsCell (binary_value s) = length s < u32_mod

abbrev pub IsTuple : List Cell → Type 0
IsTuple cells = (length cells < u16_mod) × All IsCell cells

pub record IsColumn (c : WireColumn) : Type 0 where
  pub name_ok : IsName c.name
  pub type_id_ok : c.type_id < u32_mod
  pub modifier_ok : InRange u32_mod c.type_modifier

abbrev pub IsMessage : Message → Type 0
IsMessage (relation_message rel_id schema table identity columns) =
    (rel_id < u32_mod)
    × IsName schema
    × IsName table
    × (length columns < u16_mod)
    × All IsColumn columns
IsMessage (insert_message rel_id flag new) = (rel_id < u32_mod) × IsTuple new
IsMessage (update_message rel_id new) = (rel_id < u32_mod) × IsTuple new
IsMessage (update_old_message rel_id flag new_flag old new) =
    (rel_id < u32_mod) × ((flag ≡ b'O') ⊎ (flag ≡ b'K')) × IsTuple old × IsTuple new
IsMessage (delete_message rel_id flag old) = (rel_id < u32_mod) × IsTuple old
IsMessage (truncate_message cascade restart_seqs rel_ids) =
    (length rel_ids < u32_mod) × All (λ r. r < u32_mod) rel_ids
IsMessage (skipped_message tag) = (tag ≡ b'O') ⊎ ((tag ≡ b'Y') ⊎ (tag ≡ b'M'))

-- The value of a cell; `hex::encode` belongs to the `hex` crate.
abbrev pub value_of : (Bytes → Text) → Cell → ColVal
value_of hex_encode sql_null = null
value_of hex_encode not_sent = unchanged
value_of hex_encode (text_value s) = text s
value_of hex_encode (binary_value s) = text (codes "\\x" ++ hex_encode s)

-- Cells with their columns' names; a cell with no column is named "?".
abbrev pub named : (Bytes → Text) → List ColumnDef → List Cell → List (Text × ColVal)
named hex_encode columns [] = []
named hex_encode [] (c ∷ cells) = (codes "?", value_of hex_encode c) ∷ named hex_encode [] cells
named hex_encode (d ∷ columns) (c ∷ cells) =
    (d.name, value_of hex_encode c) ∷ named hex_encode columns cells

abbrev pub row_of : (Bytes → Text) → List ColumnDef → List Cell → Row
row_of hex_encode columns cells = insert_all (named hex_encode columns cells) []

abbrev pub column_of : WireColumn → ColumnDef
column_of c = record {
  name = c.name;
  is_key = c.is_key;
  type_id = c.type_id;
  type_modifier = c.type_modifier;
}

-- The event that a message stands for, and the relation cache after it.
abbrev pub meaning : (Bytes → Text) → RelationCache → Message → Option WalEvent × RelationCache
meaning hex_encode cache (relation_message rel_id schema table identity columns) =
    let info : RelationInfo = record {
      schema = schema;
      table = table;
      columns = map column_of columns;
    } in
    (some (relation rel_id schema table info.columns), Map.insert rel_id info cache)
meaning hex_encode cache (insert_message rel_id flag new) =
    let info = info_of cache rel_id in
    (some (insert rel_id info.schema info.table (row_of hex_encode info.columns new)), cache)
meaning hex_encode cache (update_message rel_id new) =
    let info = info_of cache rel_id in
    (some (update rel_id info.schema info.table none (row_of hex_encode info.columns new)), cache)
meaning hex_encode cache (update_old_message rel_id flag new_flag old new) =
    let info = info_of cache rel_id in
    (
      some (
          update rel_id info.schema info.table (some (row_of hex_encode info.columns old))
            (row_of hex_encode info.columns new)),
      cache,
    )
meaning hex_encode cache (delete_message rel_id flag old) =
    let info = info_of cache rel_id in
    (some (delete rel_id info.schema info.table (row_of hex_encode info.columns old)), cache)
meaning hex_encode cache (truncate_message cascade restart_seqs rel_ids) =
    (some (truncate rel_ids (map (truncated_name cache) rel_ids) cascade restart_seqs), cache)
meaning hex_encode cache (skipped_message tag) = (none, cache)
