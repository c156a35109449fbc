-- ===== src/Replicate/Filter/Sources.antt =====
-- Where the rules of a `RowFilter` come from, of commands/replicate/filter.rs.
use pg_x.Base.{List, [], ◌∷◌, ◌++◌, Result, ok, err, ◌>>=◌}
use pg_x.Text.{Text}
use pg_x.Text.Chars.{Unicode}
use pg_x.Text.Split.{trim}
use pg_x.Replicate.TablePrefix.{TableKey, PrefixError, split_table_prefix}
use pg_x.Replicate.Filter.{Floats, FilterExpr, RowFilter}
use pg_x.Replicate.Filter.Token.{FilterError, empty_expression}
use pg_x.Replicate.Filter.Lexer.{parse_filter_expr}

pub data WhereError : Type 0 where
  bad_prefix : PrefixError → WhereError
  bad_expression : FilterError → WhereError

module _ (u : Unicode) (f : Floats) where
  lift_expr : Result FilterError (FilterExpr f.F64) → Result WhereError (FilterExpr f.F64)
  lift_expr (ok e) = ok e
  lift_expr (err e) = err (bad_expression e)

  lift_prefix_error : Result PrefixError (TableKey × Text) → Result WhereError (TableKey × Text)
  lift_prefix_error (ok r) = ok r
  lift_prefix_error (err e) = err (bad_prefix e)

  parse_trimmed : Text → Result FilterError (FilterExpr f.F64)
  unfolding parse_filter_expr
  parse_trimmed [] = err empty_expression
  parse_trimmed (c ∷ cs) = parse_filter_expr u f (c ∷ cs)

  unfoldable pub parse_where_arg : Text → Result WhereError (TableKey × FilterExpr f.F64)
  unfolding split_table_prefix lift_prefix_error lift_expr parse_trimmed trim
  parse_where_arg arg = do
    r ← lift_prefix_error (split_table_prefix arg)
    expr ← lift_expr (parse_trimmed (trim r.1))
    ok (r.0, expr)

  -- `RowFilter::add`
  unfoldable pub add : TableKey → FilterExpr f.F64 → RowFilter f → RowFilter f
  add key expr rules = rules ++ (key, expr) ∷ []

  add_all : List Text → RowFilter f → Result WhereError (RowFilter f)
  unfolding add parse_where_arg
  add_all [] rules = ok rules
  add_all (arg ∷ args) rules = do r ← parse_where_arg arg; add_all args (add r.0 r.1 rules)

  -- `RowFilter::from_sources`
  unfoldable pub filters_from_sources :
      (config_filters cli_filters : List Text) → Result WhereError (RowFilter f)
  unfolding add_all
  filters_from_sources config_filters cli_filters = add_all (config_filters ++ cli_filters) []
