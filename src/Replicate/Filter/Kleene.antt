-- ===== src/Replicate/Filter/Kleene.antt =====
-- The meaning of the row filters of commands/replicate/filter.rs: Kleene's logic with SQL's NULL, and
-- a conjunction of rules.
use pg_x.Base.{◌≡◌, ◌↔◌, ◌⊎◌, Option, none, some, [], ◌∷◌, true, false, not, arith, All}
use pg_x.Map.{text_key, pair_eq_iff}
use pg_x.Text.{Text}
use pg_x.Replication.Event.{
  Row, WalEvent, insert, update, delete, begin, commit, relation, truncate, keepalive,
}
use pg_x.Replicate.TablePrefix.{TableKey}
use pg_x.Replicate.Filter.{
  Floats, Operator, eq, neq, Value, null_literal, FilterExpr, compare, is_null, is_not_null, and,
  or, is_null_value, compare_value, eval, evaluate, RowFilter, key_applies, all_hold,
  should_forward,
}

module _ (f : Floats) where
  -- When an expression holds on a row, and when it is refuted; neither, where it is unknown.
  abbrev pub Holds : FilterExpr f.F64 → Row → Type 0
  Holds (compare col op val) row = compare_value f row col op val ≡ some true
  Holds (is_null col) row = is_null_value row col ≡ true
  Holds (is_not_null col) row = is_null_value row col ≡ false
  Holds (and a b) row = Holds a row × Holds b row
  Holds (or a b) row = Holds a row ⊎ Holds b row

  abbrev pub Refuted : FilterExpr f.F64 → Row → Type 0
  Refuted (compare col op val) row = compare_value f row col op val ≡ some false
  Refuted (is_null col) row = is_null_value row col ≡ false
  Refuted (is_not_null col) row = is_null_value row col ≡ true
  Refuted (and a b) row = Refuted a row ⊎ Refuted b row
  Refuted (or a b) row = Refuted a row × Refuted b row

  -- `eval` decides Kleene's logic: it is true exactly where the expression holds and false exactly
  -- where it is refuted, so that it is unknown exactly where neither is the case.
  pub eval-Kleene :
      (e : FilterExpr f.F64) (row : Row)
      → ((eval f e row ≡ some true) ↔ Holds e row) × ((eval f e row ≡ some false) ↔ Refuted e row)
  unfolding eval
  eval-Kleene (compare col op val) row = ((λ p. p, λ p. p), (λ p. p, λ p. p))
  eval-Kleene (is_null col) row = ground arith
  eval-Kleene (is_not_null col) row = ground arith
  eval-Kleene (and a b) row = ground (arith, eval-Kleene a row, eval-Kleene b row)
  eval-Kleene (or a b) row = ground (arith, eval-Kleene a row, eval-Kleene b row)

  -- A column that is null, unchanged or missing satisfies no comparison, whatever the operator (`=`
  -- and `!=` alike) and the literal.
  compare_null :
      (col : Text) (op : Operator) (val : Value f.F64) (row : Row)
      → is_null_value row col ≡ true
      → evaluate f (compare col op val) row ≡ false
  unfolding evaluate is_null_value compare_value
  compare_null col op val row h = ground arith

  -- On a column with a text, the literal is NULL or exactly one of `=` and `!=` holds.
  neq_complements_eq :
      (col : Text) (val : Value f.F64) (row : Row)
      → is_null_value row col ≡ false
      → ((val ≡ null_literal)
          ⊎ (evaluate f (compare col neq val) row ≡ not (evaluate f (compare col eq val) row)))
  unfolding evaluate is_null_value compare_value
  neq_complements_eq col val row h = ground arith

  -- The row that the rules read, with its table.
  abbrev pub subject : WalEvent → Option ((Text × Text) × Row)
  subject (insert rel_id schema table new) = some ((schema, table), new)
  subject (update rel_id schema table old new) = some ((schema, table), new)
  subject (delete rel_id schema table old) = some ((schema, table), old)
  subject _ = none

  abbrev pub ForTable : TableKey → Text × Text → Type 0
  ForTable none table = Unit
  ForTable (some key) table = key ≡ table

  -- Every rule that is for the row's table holds on it.
  abbrev pub Passes : Option ((Text × Text) × Row) → RowFilter f → Type 0
  Passes none rules = Unit
  Passes (some (table, row)) rules = All (λ r. ForTable r.0 table → Holds r.1 row) rules

  evaluate-Holds : (e : FilterExpr f.F64) (row : Row) → (evaluate f e row ≡ true) ↔ Holds e row
  unfolding evaluate
  evaluate-Holds e row = ground (arith, eval-Kleene e row)

  key_applies-ForTable :
      (key : TableKey) (schema table : Text)
      → (key_applies f key schema table ≡ true) ↔ ForTable key (schema, table)
  unfolding key_applies
  key_applies-ForTable none schema table = ground arith
  key_applies-ForTable (some key) schema table = pair_eq_iff key (schema, table)

  all_hold-Passes :
      (rules : RowFilter f) (schema table : Text) (row : Row)
      → (all_hold f rules schema table row ≡ true) ↔ Passes (some ((schema, table), row)) rules
  unfolding all_hold
  all_hold-Passes [] schema table row = ground arith
  all_hold-Passes ((key, e) ∷ rules) schema table row = ground (
    arith,
    all_hold-Passes rules schema table row,
    key_applies-ForTable key schema table,
    evaluate-Holds e row,
  )

  -- An event passes the row filter exactly where every rule for its table holds on its row: the new
  -- row of an insert or update, the old one of a delete. Other events pass.
  pub should_forward-Passes :
      (rules : RowFilter f) (event : WalEvent)
      → (should_forward f rules event ≡ true) ↔ Passes (subject event) rules
  unfolding should_forward
  should_forward-Passes rules (insert rel_id schema table new) =
      all_hold-Passes rules schema table new
  should_forward-Passes rules (update rel_id schema table old new) =
      all_hold-Passes rules schema table new
  should_forward-Passes rules (delete rel_id schema table old) =
      all_hold-Passes rules schema table old
  should_forward-Passes rules (begin _ _ _) = ground arith
  should_forward-Passes rules (commit _ _ _) = ground arith
  should_forward-Passes rules (relation _ _ _ _) = ground arith
  should_forward-Passes rules (truncate _ _ _ _) = ground arith
  should_forward-Passes rules (keepalive _ _) = ground arith
