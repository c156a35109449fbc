-- ===== src/Replicate/Filter.antt =====
-- commands/replicate/filter.rs: the AST of row filters and its three-valued evaluation.
pub mod Kleene
pub mod Token
pub mod Lexer
pub mod Parser
pub mod Sources
use pg_x.Base.{
  Option, none, some, List, [], ◌∷◌, Bool, true, false, not, ◌&&◌, ◌||◌, ◌==◌, ltb, if◌then◌else◌,
}
use pg_x.Map
use pg_x.Map.{text_eq, text_key, pair_eq}
use pg_x.Text.{Text}
use pg_x.Replication.Event.{ColVal, text, Row, WalEvent, insert, update, delete}
use pg_x.Replicate.TablePrefix.{TableKey}

-- `f64` with what the filter uses of it: `str::parse`, `to_string` and the comparisons. `!=` is the
-- negation of `==`, and `>`, `>=` are `<`, `<=` with the operands exchanged.
pub record Floats : Type 1 where
  pub F64 : Type 0
  pub parse : Text → Option F64
  pub print : F64 → Text
  pub eq : F64 → F64 → Bool
  pub lt : F64 → F64 → Bool
  pub le : F64 → F64 → Bool

pub data Operator : Type 0 where
  eq neq gt lt ge le : Operator

pub data Value (F : Type 0) : Type 0 where
  str : Text → Value F
  num : F → Value F
  null_literal : Value F

pub data FilterExpr (F : Type 0) : Type 0 where
  compare : (col : Text) (op : Operator) (val : Value F) → FilterExpr F
  is_null is_not_null : (col : Text) → FilterExpr F
  and or : FilterExpr F → FilterExpr F → FilterExpr F

-- `str` compares byte by byte.
unfoldable pub text_lt : Text → Text → Bool
text_lt [] [] = false
text_lt [] (d ∷ ds) = true
text_lt (c ∷ cs) [] = false
text_lt (c ∷ cs) (d ∷ ds) = ltb c d || c == d && text_lt cs ds

unfoldable pub apply_str : Operator → Text → Text → Bool
unfolding text_lt
apply_str eq a b = text_eq a b
apply_str neq a b = not (text_eq a b)
apply_str gt a b = text_lt b a
apply_str lt a b = text_lt a b
apply_str ge a b = not (text_lt a b)
apply_str le a b = not (text_lt b a)

is_null_cell : Option ColVal → Bool
is_null_cell (some (text s)) = false
is_null_cell _ = true

unfoldable pub is_null_value : Row → Text → Bool
unfolding is_null_cell
is_null_value row col = is_null_cell (Map.get col row)

-- The tables of `AND` and `OR` in `eval`.
unfoldable pub kleene_and : Option Bool → Option Bool → Option Bool
kleene_and (some false) _ = some false
kleene_and (some true) b = b
kleene_and none (some false) = some false
kleene_and none _ = none

unfoldable pub kleene_or : Option Bool → Option Bool → Option Bool
kleene_or (some true) _ = some true
kleene_or (some false) b = b
kleene_or none (some true) = some true
kleene_or none _ = none

is_true : Option Bool → Bool
is_true (some true) = true
is_true _ = false

module _ (f : Floats) where
  unfoldable pub apply : Operator → f.F64 → f.F64 → Bool
  apply eq a b = f.eq a b
  apply neq a b = not (f.eq a b)
  apply gt a b = f.lt b a
  apply lt a b = f.lt a b
  apply ge a b = f.le b a
  apply le a b = f.le a b

  -- The literal as a number, if it is one.
  literal_number : Value f.F64 → Option f.F64
  literal_number (num n) = some n
  literal_number (str s) = f.parse s
  literal_number null_literal = none

  pair_with : Option f.F64 → f.F64 → Option (f.F64 × f.F64)
  pair_with none b = none
  pair_with (some a) b = some (a, b)

  unfoldable pub numeric_pair : Text → Value f.F64 → Option (f.F64 × f.F64)
  unfolding literal_number pair_with
  numeric_pair lhs val = elim (literal_number val) [
    | none ↦ none
    | some b ↦ pair_with (f.parse lhs) b
  ]

  unfoldable pub literal_str : Value f.F64 → Text
  literal_str (str s) = s
  literal_str (num n) = f.print n
  literal_str null_literal = []

  compare_text : Text → Operator → Value f.F64 → Option Bool
  unfolding numeric_pair literal_str apply apply_str
  compare_text lhs op null_literal = none
  compare_text lhs op val = elim (numeric_pair lhs val) [
    | some (a, b) ↦ some (apply op a b)
    | none ↦ some (apply_str op lhs (literal_str val))
  ]

  compare_cell : Option ColVal → Operator → Value f.F64 → Option Bool
  unfolding compare_text
  compare_cell (some (text lhs)) op val = compare_text lhs op val
  compare_cell _ op val = none

  unfoldable pub compare_value : Row → Text → Operator → Value f.F64 → Option Bool
  unfolding compare_cell
  compare_value row col op val = compare_cell (Map.get col row) op val

  unfoldable pub eval : FilterExpr f.F64 → Row → Option Bool
  unfolding compare_value is_null_value kleene_and kleene_or
  eval (compare col op val) row = compare_value row col op val
  eval (is_null col) row = some (is_null_value row col)
  eval (is_not_null col) row = some (not (is_null_value row col))
  eval (and a b) row = kleene_and (eval a row) (eval b row)
  eval (or a b) row = kleene_or (eval a row) (eval b row)

  unfoldable pub evaluate : FilterExpr f.F64 → Row → Bool
  unfolding eval is_true
  evaluate e row = is_true (eval e row)

  -- The one field of the source's `RowFilter`.
  abbrev pub RowFilter : Type 0
  RowFilter = List (TableKey × FilterExpr f.F64)

  key_applies : TableKey → Text → Text → Bool
  key_applies none schema table = true
  key_applies (some key) schema table = pair_eq key (schema, table)

  -- The loop of `should_forward` over the rules.
  all_hold : RowFilter → Text → Text → Row → Bool
  unfolding key_applies evaluate
  all_hold [] schema table row = true
  all_hold ((key, expr) ∷ rules) schema table row =
      let rest = all_hold rules schema table row in
      if not (key_applies key schema table)
      then rest
      else if not (evaluate expr row)
      then false
      else rest

  unfoldable pub should_forward : RowFilter → WalEvent → Bool
  unfolding all_hold
  should_forward rules (insert rel_id schema table new) = all_hold rules schema table new
  should_forward rules (update rel_id schema table old new) = all_hold rules schema table new
  should_forward rules (delete rel_id schema table old) = all_hold rules schema table old
  should_forward rules _ = true
