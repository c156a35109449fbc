-- ===== src/Replication/Event.antt =====
-- replication/event.rs: column values, rows and WAL events.
pub mod Transformed
use pg_x.Base.{ℕ, Bool, true, false, Option, none, some, List, [], ◌∷◌, ◌++◌}
use pg_x.Base.Int.{ℤ}
use pg_x.Map.{Map, text_key}
use pg_x.Map
use pg_x.Text.{Text, codes}

pub data ColVal : Type 0 where
  text : Text → ColVal
  null : ColVal
  unchanged : ColVal

unfoldable pub is_unchanged : ColVal → Bool
is_unchanged unchanged = true
is_unchanged _ = false

unfoldable pub as_str : ColVal → Option Text
as_str (text s) = some s
as_str _ = none

-- A `HashMap`: the order of the entries means nothing.
abbrev pub Row : Type 0
Row = Map Text ColVal

unfoldable pub qualified_name : Text → Text → Text
qualified_name schema table = schema ++ (codes "." ++ table)

pub record ColumnDef : Type 0 where
  pub name : Text
  pub is_key : Bool
  pub type_id : ℕ
  pub type_modifier : ℤ

-- The fields stand in the source's order.
pub data WalEvent : Type 0 where
  begin : (lsn : Text) (commit_time : ℤ) (xid : ℕ) → WalEvent
  commit : (lsn end_lsn : Text) (commit_time : ℤ) → WalEvent
  relation : (rel_id : ℕ) (schema table : Text) (columns : List ColumnDef) → WalEvent
  insert : (rel_id : ℕ) (schema table : Text) (new : Row) → WalEvent
  update : (rel_id : ℕ) (schema table : Text) (old : Option Row) (new : Row) → WalEvent
  delete : (rel_id : ℕ) (schema table : Text) (old : Row) → WalEvent
  truncate : (rel_ids : List ℕ) (tables : List Text) (cascade restart_seqs : Bool) → WalEvent
  keepalive : (wal_end : Text) (reply_requested : Bool) → WalEvent

unfoldable pub op_label : WalEvent → Text
op_label (begin _ _ _) = codes "BEGIN"
op_label (commit _ _ _) = codes "COMMIT"
op_label (relation _ _ _ _) = codes "RELATION"
op_label (insert _ _ _ _) = codes "INSERT"
op_label (update _ _ _ _ _) = codes "UPDATE"
op_label (delete _ _ _ _) = codes "DELETE"
op_label (truncate _ _ _ _) = codes "TRUNCATE"
op_label (keepalive _ _) = codes "KEEPALIVE"

unfoldable pub table_name : WalEvent → Option (Text × Text)
table_name (insert _ schema table _) = some (schema, table)
table_name (update _ schema table _ _) = some (schema, table)
table_name (delete _ schema table _) = some (schema, table)
table_name _ = none

-- `for col in drop_cols { row.remove(col); }`
unfoldable pub drop_columns : List Text → Row → Row
drop_columns [] row = row
drop_columns (col ∷ cols) row = drop_columns cols (Map.remove col row)

-- First phase of the renames: each old key is removed, its value kept with the new key.
unfoldable pub take_renamed : List (Text × Text) → Row → List (Text × ColVal) × Row
take_renamed [] row = ([], row)
take_renamed ((old_name, new_name) ∷ renames) row =
    let rest = take_renamed renames (Map.remove old_name row) in
    elim (Map.get old_name row) [ none ↦ rest | some val ↦ ((new_name, val) ∷ rest.0, rest.1) ]

-- Second phase: the kept values are inserted.
unfoldable pub insert_all : List (Text × ColVal) → Row → Row
insert_all [] row = row
insert_all ((new_key, val) ∷ pending) row = insert_all pending (Map.insert new_key val row)

-- What `apply_transforms` does to one row.
unfoldable pub transform_row : List Text → List (Text × Text) → Row → Row
unfolding drop_columns take_renamed insert_all
transform_row drop_cols renames row =
    let (pending, kept) = take_renamed renames (drop_columns drop_cols row) in
    insert_all pending kept

unfoldable pub apply_transforms : WalEvent → List Text → List (Text × Text) → WalEvent
apply_transforms (insert r s t new) drop_cols renames =
    insert r s t (transform_row drop_cols renames new)
apply_transforms (update r s t none new) drop_cols renames =
    update r s t none (transform_row drop_cols renames new)
apply_transforms (update r s t (some old) new) drop_cols renames =
    update r s t (some (transform_row drop_cols renames old)) (transform_row drop_cols renames new)
apply_transforms (delete r s t old) drop_cols renames =
    delete r s t (transform_row drop_cols renames old)
apply_transforms e drop_cols renames = e
