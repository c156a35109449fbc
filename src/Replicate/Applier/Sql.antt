-- ===== src/Replicate/Applier/Sql.antt =====
-- The SQL layer of commands/replicate/applier.rs: each event to a statement or an explicit skip.
pub mod Statements
use pg_x.Base.{ℕ, Option, none, some, List, [], ◌∷◌, ◌++◌, map, Bool, ◌==◌, if◌then◌else◌}
use pg_x.Map
use pg_x.Map.{Map, text_key, pair_key}
use pg_x.Text.{Text, codes}
use pg_x.Text.Split.{split_once}
use pg_x.Replication.Event.{
  ColVal, text, null, unchanged, is_unchanged, Row, WalEvent, insert, update, delete, truncate,
}
use pg_x.Replicate.Filter.{text_lt}
use pg_x.Replicate.Session.Gate.{join}

abbrev pub SchemaMap : Type 0
SchemaMap = Map (Text × Text) (Text × Text)

pub data Sql : Type 0 where
  stmt : Text → Sql
  skipped : (op reason : Text) → Sql

-- `s.replace(c, cc)` for one ASCII character, and the loop of `quote_literal`.
unfoldable pub escape : ℕ → Text → Text
escape q [] = []
escape q (c ∷ s) = let rest = escape q s in if c == q then q ∷ q ∷ rest else c ∷ rest

unfoldable pub quote_ident : Text → Text
unfolding escape
quote_ident s = b'"' ∷ (escape b'"' s ++ b'"' ∷ [])

unfoldable pub quote_literal : Text → Text
unfolding escape
quote_literal s = b'\'' ∷ (escape b'\'' s ++ b'\'' ∷ [])

unfoldable pub colval_to_sql : ColVal → Text
unfolding quote_literal
colval_to_sql (text s) = quote_literal s
colval_to_sql null = codes "NULL"
colval_to_sql unchanged = codes "NULL"

unfoldable pub map_table : SchemaMap → Text → Text → Text × Text
map_table schema_map schema table = elim (Map.get (schema, table) schema_map) [
  | none ↦ (schema, table)
  | some target ↦ target
]

-- `format!("{}.{}", quote_ident(..), quote_ident(..))` of the mapped table.
unfoldable pub qualified : SchemaMap → Text → Text → Text
unfolding map_table quote_ident
qualified schema_map schema table =
    let (s, t) = map_table schema_map schema table in quote_ident s ++ (codes "." ++ quote_ident t)

-- The columns whose value is not Unchanged, in the order of the map.
unfoldable pub sendable : Row → Row
unfolding is_unchanged
sendable [] = []
sendable ((c, v) ∷ row) = let rest = sendable row in if is_unchanged v then rest else (c, v) ∷ rest

-- `sort` of the column names, each with the value that `new[c]` reads.
insert_sorted : Text × ColVal → Row → Row
insert_sorted (c, v) [] = (c, v) ∷ []
insert_sorted (c, v) ((d, w) ∷ row) =
    let rest = insert_sorted (c, v) row in
    if text_lt d c then (d, w) ∷ rest else (c, v) ∷ (d, w) ∷ row

sort_columns : Row → Row
unfolding insert_sorted
sort_columns [] = []
sort_columns (x ∷ row) = insert_sorted x (sort_columns row)

-- `"column" = value`
unfoldable pub clause : Text × ColVal → Text
unfolding quote_ident colval_to_sql
clause (c, v) = quote_ident c ++ (codes " = " ++ colval_to_sql v)

insert_sql : SchemaMap → Text → Text → Row → Sql
unfolding qualified quote_ident colval_to_sql join
insert_sql schema_map schema table [] =
    skipped (codes "insert")
      (codes "row has no sendable columns (all Unchanged); set REPLICA IDENTITY FULL")
insert_sql schema_map schema table (x ∷ cols) = stmt (
    codes "INSERT INTO "
    ++ (qualified schema_map schema table
        ++ (codes " ("
            ++ (join (codes ", ") (map (λ col. quote_ident col.0) (x ∷ cols))
                ++ (codes ") VALUES ("
                    ++ (join (codes ", ") (map (λ col. colval_to_sql col.1) (x ∷ cols))
                        ++ codes ")"))))))

unfoldable pub gen_insert : SchemaMap → Text → Text → Row → Sql
unfolding insert_sql sort_columns sendable
gen_insert schema_map schema table new =
    insert_sql schema_map schema table (sort_columns (sendable new))

update_sql : SchemaMap → Text → Text → Row → Row → Sql
unfolding qualified clause join
update_sql schema_map schema table [] old =
    skipped (codes "update") (codes "new tuple has no sendable columns (all Unchanged)")
update_sql schema_map schema table (x ∷ set) [] =
    skipped (codes "update")
      (codes "old tuple has no usable WHERE columns; set REPLICA IDENTITY FULL")
update_sql schema_map schema table (x ∷ set) (y ∷ old) = stmt (
    codes "UPDATE "
    ++ (qualified schema_map schema table
        ++ (codes " SET "
            ++ (join (codes ", ") (map clause (x ∷ set))
                ++ (codes " WHERE " ++ join (codes " AND ") (map clause (y ∷ old)))))))

old_columns : Option Row → Row
unfolding sendable
old_columns none = []
old_columns (some old) = sendable old

unfoldable pub gen_update : SchemaMap → Text → Text → Option Row → Row → Sql
unfolding update_sql sort_columns sendable old_columns
gen_update schema_map schema table old new =
    update_sql schema_map schema table (sort_columns (sendable new)) (old_columns old)

delete_sql : SchemaMap → Text → Text → Row → Sql
unfolding qualified clause join
delete_sql schema_map schema table [] =
    skipped (codes "delete")
      (codes "old tuple has no usable WHERE columns; set REPLICA IDENTITY FULL")
delete_sql schema_map schema table (x ∷ old) = stmt (
    codes "DELETE FROM "
    ++ (qualified schema_map schema table
        ++ (codes " WHERE " ++ join (codes " AND ") (map clause (x ∷ old)))))

unfoldable pub gen_delete : SchemaMap → Text → Text → Row → Sql
unfolding delete_sql sendable
gen_delete schema_map schema table old = delete_sql schema_map schema table (sendable old)

-- A table's text of a Truncate: `schema.table`, or one name.
truncated_table : SchemaMap → Text → Text
unfolding qualified quote_ident split_once
truncated_table schema_map t = elim (split_once b'.' t) [
  | none ↦ quote_ident t
  | some (schema, table) ↦ qualified schema_map schema table
]

unfoldable pub gen_truncate : SchemaMap → List Text → Bool → Bool → Sql
unfolding truncated_table join
gen_truncate schema_map tables cascade restart_seqs = stmt (
    (codes "TRUNCATE " ++ join (codes ", ") (map (truncated_table schema_map) tables))
    ++ ((if restart_seqs then codes " RESTART IDENTITY" else [])
        ++ (if cascade then codes " CASCADE" else [])))

unfoldable pub gen_sql : SchemaMap → WalEvent → Sql
unfolding gen_insert gen_update gen_delete gen_truncate
gen_sql schema_map (insert _ schema table new) = gen_insert schema_map schema table new
gen_sql schema_map (update _ schema table old new) = gen_update schema_map schema table old new
gen_sql schema_map (delete _ schema table old) = gen_delete schema_map schema table old
gen_sql schema_map (truncate _ tables cascade restart_seqs) =
    gen_truncate schema_map tables cascade restart_seqs
gen_sql schema_map _ = skipped (codes "event") (codes "not a target-applicable statement")

unfoldable pub statement_of : Sql → List Text → List Text
statement_of (stmt sql) statements = sql ∷ statements
statement_of (skipped op reason) statements = statements

unfoldable pub gen_statements : SchemaMap → List WalEvent → List Text
unfolding gen_sql statement_of
gen_statements schema_map [] = []
gen_statements schema_map (event ∷ events) =
    statement_of (gen_sql schema_map event) (gen_statements schema_map events)
