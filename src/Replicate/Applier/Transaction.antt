-- ===== src/Replicate/Applier/Transaction.antt =====
-- The calls of the applier of commands/replicate/applier.rs over one source transaction.
use pg_x.Base.{◌≡◌, refl, sym, ◌∙◌, ap, List, [], ◌∷◌, ◌++◌, Bool, true, arith}
use mathlib.Core.List.{append_assoc, append-nil}
use pg_x.Text.{Text}
use pg_x.Replication.Event.{
  WalEvent, begin, commit, relation, insert, update, delete, truncate, keepalive,
}
use pg_x.Replicate.Applier.Sql.{
  SchemaMap, Sql, stmt, skipped, gen_sql, statement_of, gen_statements,
}
use pg_x.Replicate.Applier.{
  Client, PostgresApplier, run_statements, apply_txn, with_txn, handle_begin, handle_event,
  apply_buffer, handle_commit,
}

module _ (c : Client) where
  -- The calls of a session between a Begin and the Commit.
  abbrev pub handle_events : List WalEvent → PostgresApplier c → PostgresApplier c
  handle_events [] a = a
  handle_events (event ∷ events) a = handle_events events (handle_event c event a).1

  abbrev pub run_if_any : List Text → c.Db → Bool × c.Db
  run_if_any [] db = (true, db)
  run_if_any (sql ∷ statements) db = with_txn c (sql ∷ statements) db

  -- The applier behind a commit that runs these statements.
  abbrev pub committed : List Text → PostgresApplier c → Bool × PostgresApplier c
  committed statements a =
      let (fine, db) = run_if_any statements a.client in
      (fine, record a { client = db; buffer = [] })

  gen_statements-append :
      (m : SchemaMap) (xs ys : List WalEvent)
      → gen_statements m (xs ++ ys) ≡ gen_statements m xs ++ gen_statements m ys
  unfolding gen_statements statement_of
  gen_statements-append m [] ys = refl
  gen_statements-append m (x ∷ xs) ys = at_sql (gen_statements-append m xs ys) (gen_sql m x)
    where
      at_sql :
          gen_statements m (xs ++ ys) ≡ gen_statements m xs ++ gen_statements m ys
          → (sql : Sql)
          → statement_of sql (gen_statements m (xs ++ ys))
            ≡ statement_of sql (gen_statements m xs) ++ gen_statements m ys
      at_sql ih (stmt text) = ap (λ r. text ∷ r) ih
      at_sql ih (skipped op reason) = ih

  -- What is buffered of an event gives the event's statements.
  handle_event-buffer :
      (event : WalEvent) (a : PostgresApplier c) (m : SchemaMap)
      → gen_statements m (handle_event c event a).1.buffer
        ≡ gen_statements m a.buffer ++ gen_statements m (event ∷ [])
  unfolding handle_event gen_statements gen_sql statement_of
  handle_event-buffer (begin _ _ _) a m = sym (append-nil (gen_statements m a.buffer))
  handle_event-buffer (commit _ _ _) a m = sym (append-nil (gen_statements m a.buffer))
  handle_event-buffer (relation _ _ _ _) a m = sym (append-nil (gen_statements m a.buffer))
  handle_event-buffer (keepalive _ _) a m = sym (append-nil (gen_statements m a.buffer))
  handle_event-buffer (insert r s t new) a m =
      gen_statements-append m a.buffer (insert r s t new ∷ [])
  handle_event-buffer (update r s t old new) a m =
      gen_statements-append m a.buffer (update r s t old new ∷ [])
  handle_event-buffer (delete r s t old) a m =
      gen_statements-append m a.buffer (delete r s t old ∷ [])
  handle_event-buffer (truncate r ts k rs) a m =
      gen_statements-append m a.buffer (truncate r ts k rs ∷ [])

  handle_event-keeps :
      (event : WalEvent) (a : PostgresApplier c)
      → ((handle_event c event a).1.client ≡ a.client)
        × ((handle_event c event a).1.schema_map ≡ a.schema_map)
  unfolding handle_event
  handle_event-keeps event a = ground arith

  handle_events-keeps :
      (events : List WalEvent) (a : PostgresApplier c)
      → ((handle_events events a).client ≡ a.client)
        × ((handle_events events a).schema_map ≡ a.schema_map)
  handle_events-keeps [] a = (refl, refl)
  handle_events-keeps (event ∷ events) a =
      let e = handle_event-keeps event a in
      let r = handle_events-keeps events (handle_event c event a).1 in (r.0 ∙ e.0, r.1 ∙ e.1)

  handle_events-buffer :
      (events : List WalEvent) (a : PostgresApplier c) (m : SchemaMap)
      → gen_statements m (handle_events events a).buffer
        ≡ gen_statements m a.buffer ++ gen_statements m events
  handle_events-buffer [] a m =
      unfold gen_statements in sym (append-nil (gen_statements m a.buffer))
  handle_events-buffer (event ∷ events) a m =
      handle_events-buffer events (handle_event c event a).1 m
      ∙ ap (λ r. r ++ gen_statements m events) (handle_event-buffer event a m)
      ∙ append_assoc (gen_statements m a.buffer) (gen_statements m (event ∷ []))
          (gen_statements m events)
      ∙ ap (λ r. gen_statements m a.buffer ++ r) (sym (gen_statements-append m (event ∷ []) events))

  run_statements_lem :
      (statements : List Text) (db : c.Db)
      → run_statements c statements db ≡ run_if_any statements db
  unfolding run_statements
  run_statements_lem [] db = refl
  run_statements_lem (sql ∷ statements) db = refl

  apply_buffer-committed :
      (buffer : List WalEvent) (a : PostgresApplier c)
      → a.buffer ≡ buffer
      → apply_buffer c buffer a ≡ committed (gen_statements a.schema_map buffer) a
  unfolding apply_buffer apply_txn
  apply_buffer-committed [] a e =
      unfold gen_statements in ap (λ b. (true, record a { buffer = b })) e
  apply_buffer-committed (event ∷ events) a e =
      ap (λ r. (r.0, record a { client = r.1; buffer = [] }))
        (run_statements_lem (gen_statements a.schema_map (event ∷ events)) a.client)

  handle_commit-committed :
      (a : PostgresApplier c)
      → handle_commit c a ≡ committed (gen_statements a.schema_map a.buffer) a
  unfolding handle_commit
  handle_commit-committed a = apply_buffer-committed a.buffer a refl

  committed_same :
      (statements : List Text) (a b : PostgresApplier c)
      → a.client ≡ b.client
      → a.schema_map ≡ b.schema_map
      → committed statements a ≡ committed statements b
  committed_same statements a b e k =
      ap (λ db. committed statements (record a { client = db; buffer = [] })) e
      ∙ ap (λ m. committed statements (record b { schema_map = m; buffer = [] })) k

  -- A source transaction, from its Begin over its events to its Commit, runs the statements of exactly
  -- its own events, in their order, as one transaction of the target, and none where no event has a
  -- statement. Whether or not it succeeds, the buffer is empty afterwards.
  pub handle_commit-transaction :
      (events : List WalEvent) (a : PostgresApplier c)
      → handle_commit c (handle_events events (handle_begin c a))
        ≡ committed (gen_statements a.schema_map events) a
  unfolding handle_begin
  handle_commit-transaction events a =
      let start : PostgresApplier c = record a { buffer = [] } in
      let kept = handle_events-keeps events start in
      handle_commit-committed (handle_events events start)
      ∙ committed_same
          (gen_statements (handle_events events start).schema_map
            (handle_events events start).buffer)
          (handle_events events start) a kept.0 kept.1
      ∙ ap (λ m. committed (gen_statements m (handle_events events start).buffer) a) kept.1
      ∙ ap (λ r. committed r a) (handle_events-buffer events start a.schema_map)
      ∙ unfold gen_statements in refl
