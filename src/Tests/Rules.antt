-- ===== src/Tests/Rules.antt =====
-- Runs of the table prefixes, the column transforms and the row filters.
use pg_x.Base.{ℕ, ◌≡◌, ◌↔◌, true, false, none, some, [], ◌∷◌, ok, arith}
use pg_x.Map.{text_key}
use pg_x.Text.{codes}
use pg_x.Tests.Replicate.{floats}
use pg_x.Replication.Event.{text, null, Row, WalEvent, insert}
use pg_x.Replicate.TablePrefix.{split_table_prefix}
use pg_x.Replicate.TablePrefix.Prefixes.{split_table_prefix_global}
use pg_x.Replicate.Transforms.{ColumnTransforms}
use pg_x.Replicate.Filter.{gt, num, FilterExpr, compare, and, is_not_null, eval, should_forward}
use pg_x.Replicate.Filter.Kleene.{
  Holds, Refuted, eval-Kleene, Passes, subject, should_forward-Passes,
}

split_table_prefix_global_example :
    split_table_prefix (codes "ssn,dob") ≡ ok (none, codes "ssn,dob")
split_table_prefix_global_example = split_table_prefix_global (codes "ssn,dob") (ground arith)

abbrev users_rule : ColumnTransforms
users_rule =
    (some (codes "public", codes "users"), record { drop_cols = codes "ssn" ∷ []; renames = [] })
    ∷ []

abbrev order_row : Row
order_row = (codes "amount", text (codes "12")) ∷ (codes "note", null) ∷ []

abbrev order_event : WalEvent
order_event = insert 3 (codes "public") (codes "orders") order_row

-- amount > 10 AND note IS NOT NULL, over whole numbers.
abbrev expr : FilterExpr ℕ
expr = and (compare (codes "amount") gt (num 10)) (is_not_null (codes "note"))

eval-Kleene_example :
    ((eval floats expr order_row ≡ some true) ↔ Holds floats expr order_row)
    × ((eval floats expr order_row ≡ some false) ↔ Refuted floats expr order_row)
eval-Kleene_example = eval-Kleene floats expr order_row

should_forward-Passes_example :
    (should_forward floats ((none, expr) ∷ []) order_event ≡ true)
    ↔ Passes floats (subject floats order_event) ((none, expr) ∷ [])
should_forward-Passes_example = should_forward-Passes floats ((none, expr) ∷ []) order_event
