-- ===== src/Replicate/Session/Gate.antt =====
-- The gate and the environment of replicate_session.rs: what is forwarded, and with which variables.
use pg_x.Base.{
  ◌+◌, Option, none, some, List, [], ◌∷◌, ◌++◌, Bool, true, false, ◌&&◌, ◌||◌, leb, if◌then◌else◌,
  map,
}
use pg_x.Map
use pg_x.Map.{Map, text_eq, text_key}
use pg_x.Text.{Text, codes}
use pg_x.Text.Number.{print_dec}
use pg_x.Replication.Event.{
  Row, WalEvent, begin, commit, relation, insert, update, delete, truncate, keepalive,
  qualified_name, op_label,
}
use pg_x.Replicate.Filter
use pg_x.Replicate.Filter.{Floats, RowFilter}

-- commands/replicate/mod.rs
pub data OpFilter : Type 0 where
  insert_op update_op delete_op truncate_op : OpFilter

pub record SessionConfig : Type 0 where
  pub emit_txn_boundaries : Bool
  pub emit_schema : Bool
  pub tables : List Text
  pub ops : List OpFilter

-- `to_lowercase` of an ASCII text.
abbrev to_lower : Text → Text
to_lower = map (λ c. if leb b'A' c && leb c b'Z' then c + 32 else c)

-- `filter.iter().any(|f| f == name)`
unfoldable pub contains : List Text → Text → Bool
contains [] name = false
contains (f ∷ fs) name = text_eq f name || contains fs name

any_table : List Text → Text → Text → Bool
any_table [] table qualified = false
any_table (f ∷ fs) table qualified =
    (text_eq f table || text_eq f qualified) || any_table fs table qualified

unfoldable pub table_matches : Text → Text → List Text → Bool
unfolding any_table qualified_name
table_matches schema table [] = true
table_matches schema table filter = any_table filter table (qualified_name schema table)

op_text : OpFilter → Text
op_text insert_op = codes "insert"
op_text update_op = codes "update"
op_text delete_op = codes "delete"
op_text truncate_op = codes "truncate"

any_op : List OpFilter → Text → Bool
any_op [] op = false
any_op (f ∷ fs) op = text_eq op (op_text f) || any_op fs op

unfoldable pub op_matches : Text → List OpFilter → Bool
unfolding any_op op_text
op_matches op [] = true
op_matches op filter = any_op filter op

-- `tables.iter().any(|t| config.tables.iter().any(|f| f == t))`
any_listed : List Text → List Text → Bool
unfolding contains
any_listed filter [] = false
any_listed filter (t ∷ tables) = contains filter t || any_listed filter tables

truncate_listed : List Text → List Text → Bool
unfolding any_listed
truncate_listed [] tables = true
truncate_listed filter tables = any_listed filter tables

module _ (f : Floats) (config : SessionConfig) (rules : RowFilter f) where
  -- The arm for the three row events.
  forward_row : WalEvent → Text → Text → Bool
  unfolding table_matches op_matches
  forward_row event schema table =
      table_matches schema table config.tables
      && (op_matches (to_lower (op_label event)) config.ops && Filter.should_forward f rules event)

  unfoldable pub should_forward : WalEvent → Bool
  unfolding forward_row truncate_listed op_label
  should_forward (insert r schema table new) = forward_row (insert r schema table new) schema table
  should_forward (update r schema table old new) =
      forward_row (update r schema table old new) schema table
  should_forward (delete r schema table old) = forward_row (delete r schema table old) schema table
  should_forward (truncate rel_ids tables cascade restart_seqs) =
      op_matches (codes "truncate") config.ops && truncate_listed config.tables tables
  should_forward (begin _ _ _) = config.emit_txn_boundaries
  should_forward (commit _ _ _) = config.emit_txn_boundaries
  should_forward (relation _ _ _ _) = config.emit_schema
  should_forward (keepalive _ _) = false

-- `tables.join(",")`
unfoldable pub join : Text → List Text → Text
join sep [] = []
join sep (t ∷ []) = t
join sep (t ∷ u ∷ ts) = t ++ (sep ++ join sep (u ∷ ts))

-- The variables for child processes. `row_json` is `serde_json::to_string` of a row, or `none`
-- where it fails.
module _ (row_json : Row → Option Text) where
  json_or_dash : Row → Text
  json_or_dash row = elim (row_json row) [ none ↦ [] | some s ↦ s ]

  base_env : WalEvent → Text → Map Text Text
  unfolding op_label
  base_env event lsn_str =
      Map.insert (codes "PGX_LSN") lsn_str
        (Map.insert (codes "PGX_OP") (to_lower (op_label event)) [])

  abbrev table_env : Text → Text → Map Text Text → Map Text Text
  table_env schema table env =
      Map.insert (codes "PGX_TABLE") table (Map.insert (codes "PGX_SCHEMA") schema env)

  fields_env : WalEvent → Map Text Text → Map Text Text
  unfolding json_or_dash join
  fields_env (insert r schema table new) env =
      Map.insert (codes "PGX_NEW") (json_or_dash new) (table_env schema table env)
  fields_env (update r schema table none new) env =
      Map.insert (codes "PGX_NEW") (json_or_dash new) (table_env schema table env)
  fields_env (update r schema table (some old) new) env =
      Map.insert (codes "PGX_OLD") (json_or_dash old)
        (Map.insert (codes "PGX_NEW") (json_or_dash new) (table_env schema table env))
  fields_env (delete r schema table old) env =
      Map.insert (codes "PGX_OLD") (json_or_dash old) (table_env schema table env)
  fields_env (truncate rel_ids tables cascade restart_seqs) env =
      Map.insert (codes "PGX_TABLES") (join (codes ",") tables) env
  fields_env (begin lsn commit_time xid) env = Map.insert (codes "PGX_XID") (print_dec xid) env
  fields_env _ env = env

  unfoldable pub event_env : WalEvent → Text → Map Text Text
  unfolding base_env fields_env
  event_env event lsn_str = fields_env event (base_env event lsn_str)
