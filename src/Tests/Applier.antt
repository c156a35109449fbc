-- ===== src/Tests/Applier.antt =====
-- Runs of the SQL layer and of the applier, on a target that is a list of statements.
use pg_x.Base.{◌≡◌, refl, some, List, [], ◌∷◌, ◌++◌, true, arith}
use pg_x.Map
use pg_x.Map.{pair_key}
use pg_x.Text.{Text, codes}
use pg_x.Replication.Event.{text, null, unchanged, Row, WalEvent, delete, relation}
use pg_x.Replicate.Applier.{Client, PostgresApplier, handle_begin, handle_commit}
use pg_x.Replicate.Applier.Sql.{
  stmt, quote_ident, quote_literal, gen_sql, gen_delete, gen_statements,
}
use pg_x.Replicate.Applier.Quoting.{read_quoted, read_quoted-quote}
use pg_x.Replicate.Applier.Sql.Statements.{is_stmt, applicable, IsGuarded, gen_sql-IsGuarded}
use pg_x.Replicate.Applier.Transaction.{handle_events, committed, handle_commit-transaction}

read_quoted-quote_example :
    (read_quoted b'"' (quote_ident (codes "it's") ++ codes " = 1")
      ≡ some (codes "it's", codes " = 1"))
    × (read_quoted b'\'' (quote_literal (codes "it's") ++ codes " = 1")
        ≡ some (codes "it's", codes " = 1"))
read_quoted-quote_example =
    read_quoted-quote (codes "it's") (codes " = 1") (ground arith) (ground arith)

quoted_apostrophe : quote_literal (codes "it's") ≡ codes "'it''s'"
unfolding quote_literal
quoted_apostrophe = refl

abbrev old_row : Row
old_row = (codes "id", text (codes "7")) ∷ (codes "note", null) ∷ (codes "big", unchanged) ∷ []

abbrev removed : WalEvent
removed = delete 3 (codes "public") (codes "t") old_row

gen_sql-IsGuarded_example :
    (is_stmt (gen_sql [] removed) ≡ applicable removed) × IsGuarded [] removed (gen_sql [] removed)
gen_sql-IsGuarded_example = gen_sql-IsGuarded [] removed

-- The statement that the null column spoils: SQL has no row with "note" = NULL.
deleted_text :
    gen_delete [] (codes "public") (codes "t") old_row
    ≡ stmt (codes "DELETE FROM \"public\".\"t\" WHERE \"id\" = '7' AND \"note\" = NULL")
unfolding gen_delete Map.get
deleted_text = refl

-- A target that records what is committed.
abbrev pub client : Client
client = record {
  Db = List Text × List Text;
  transaction = λ db. (true, (db.0, []));
  execute = λ sql db. (true, (db.0, db.1 ++ sql ∷ []));
  commit_txn = λ db. (true, (db.0 ++ db.1, []));
  rollback = λ db. (db.0, []);
}

abbrev applier : PostgresApplier client
applier = record { client = ([], []); buffer = removed ∷ []; schema_map = [] }

abbrev events : List WalEvent
events = relation 3 (codes "public") (codes "t") [] ∷ removed ∷ removed ∷ []

handle_commit-transaction_example :
    handle_commit client (handle_events client events (handle_begin client applier))
    ≡ committed client (gen_statements [] events) applier
handle_commit-transaction_example = handle_commit-transaction client events applier
