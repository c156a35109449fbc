-- ===== src/Replicate/Applier.antt =====
-- commands/replicate/applier.rs: a source transaction applied to a target database.
pub mod Sql
pub mod Quoting
pub mod Transaction
use pg_x.Base.{List, [], ◌∷◌, ◌++◌, Bool, true, false, not, if◌then◌else◌, Result, ok, ◌>>=◌, ok_or}
use pg_x.Map
use pg_x.Map.{Map, pair_key}
use pg_x.Text.{Text}
use pg_x.Text.Split.{split_once}
use pg_x.Replication.Event.{WalEvent, begin, commit, relation, keepalive}
use pg_x.Replicate.Applier.Sql.{SchemaMap, gen_statements}

-- The client of the `tokio_postgres` crate, on a state of its own. The flags say whether a call
-- succeeds; `rollback` is the drop of a transaction that was not committed.
pub record Client : Type 1 where
  pub Db : Type 0
  pub transaction : Db → Bool × Db
  pub execute : Text → Db → Bool × Db
  pub commit_txn : Db → Bool × Db
  pub rollback : Db → Db

pub data MappingError : Type 0 where
  no_equals not_qualified : MappingError

-- One `src_schema.src_table=tgt_schema.tgt_table`; `splitn(2, _)` with two parts is `split_once`.
parse_mapping : Text → Result MappingError ((Text × Text) × (Text × Text))
unfolding split_once
parse_mapping mapping = do
  sides ← ok_or (split_once b'=' mapping) no_equals
  source ← ok_or (split_once b'.' sides.0) not_qualified
  target ← ok_or (split_once b'.' sides.1) not_qualified
  ok (source, target)

-- The loop of `connect` over the arguments.
unfoldable pub schema_map_of : List Text → SchemaMap → Result MappingError SchemaMap
unfolding parse_mapping
schema_map_of [] schema_map = ok schema_map
schema_map_of (mapping ∷ mappings) schema_map = do
  entry ← parse_mapping mapping
  schema_map_of mappings (Map.insert entry.0 entry.1 schema_map)

module _ (c : Client) where
  pub record PostgresApplier : Type 0 where
    pub client : c.Db
    pub buffer : List WalEvent
    pub schema_map : SchemaMap

  -- The statements in order, up to the first that fails.
  unfoldable pub execute_all : List Text → c.Db → Bool × c.Db
  execute_all [] db = (true, db)
  execute_all (sql ∷ statements) db =
      let (fine, db') = c.execute sql db in
      let rest = execute_all statements db' in if fine then rest else (false, db')

  -- `PgExecutor::with_txn`
  unfoldable pub with_txn : List Text → c.Db → Bool × c.Db
  unfolding execute_all
  with_txn statements db =
      let (started, db') = c.transaction db in
      let (fine, db'') = execute_all statements db' in
      if not started
      then (false, db')
      else if fine
      then c.commit_txn db''
      else (false, c.rollback db'')

  run_statements : List Text → c.Db → Bool × c.Db
  unfolding with_txn
  run_statements [] db = (true, db)
  run_statements (sql ∷ statements) db = with_txn (sql ∷ statements) db

  -- `apply`
  unfoldable pub apply_txn : List WalEvent → SchemaMap → c.Db → Bool × c.Db
  unfolding gen_statements run_statements
  apply_txn events schema_map db = run_statements (gen_statements schema_map events) db

  unfoldable pub handle_begin : PostgresApplier → PostgresApplier
  handle_begin a = record a { buffer = [] }

  unfoldable pub handle_event : WalEvent → PostgresApplier → Bool × PostgresApplier
  handle_event (begin _ _ _) a = (true, a)
  handle_event (commit _ _ _) a = (true, a)
  handle_event (relation _ _ _ _) a = (true, a)
  handle_event (keepalive _ _) a = (true, a)
  handle_event event a = (true, record a { buffer = a.buffer ++ event ∷ [] })

  -- The buffer is taken before the statements run, and stays empty when they fail.
  apply_buffer : List WalEvent → PostgresApplier → Bool × PostgresApplier
  unfolding apply_txn
  apply_buffer [] a = (true, a)
  apply_buffer (event ∷ events) a =
      let (fine, db) = apply_txn (event ∷ events) a.schema_map a.client in
      (fine, record a { client = db; buffer = [] })

  unfoldable pub handle_commit : PostgresApplier → Bool × PostgresApplier
  unfolding apply_buffer
  handle_commit a = apply_buffer a.buffer a
