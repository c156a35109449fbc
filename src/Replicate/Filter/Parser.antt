-- ===== src/Replicate/Filter/Parser.antt =====
-- The parser of commands/replicate/filter.rs: precedence climbing. `pos` is the list of the tokens
-- that are left.
pub mod Fuel
pub mod RoundTrip
use pg_x.Base.{
  ℕ, zero, suc, ◌+◌, ◌*◌, Option, none, some, List, [], ◌∷◌, true, false, ltb, length, Result, ok,
  err, ◌>>=◌,
}
use pg_x.Text.{Text}
use pg_x.Replicate.Filter.{
  Floats, Operator, Value, str, num, null_literal, FilterExpr, compare, is_null, is_not_null, and,
  or,
}
use pg_x.Replicate.Filter
use pg_x.Replicate.Filter.Token.{
  Token, token_desc, FilterError, ident, str_token, number, eq_token, neq_token, gt_token, lt_token,
  ge_token, le_token, and_token, or_token, not_token, is_token, null_token, lparen, rparen,
  empty_expression, unclosed_paren, trailing, bad_start, expected_literal, expected_null,
  expected_null_after_not, expected_operator, expected_column, out_of_fuel,
}

module _ (f : Floats) where
  abbrev pub Tokens : Type 0
  Tokens = List (Token f.F64)

  abbrev pub Expr : Type 0
  Expr = FilterExpr f.F64

  abbrev pub Parsed : Type 0 → Type 0
  Parsed A = Result FilterError (A × Tokens)

  unfoldable pub peek : Tokens → Option (Token f.F64)
  peek [] = none
  peek (t ∷ ts) = some t

  -- `binary_precedence`, with the constructor that combines the two sides.
  unfoldable pub binary_precedence : Token f.F64 → Option (ℕ × (Expr → Expr → Expr))
  binary_precedence or_token = some (1, λ a b. or a b)
  binary_precedence and_token = some (2, λ a b. and a b)
  binary_precedence _ = none

  -- `self.peek().and_then(binary_precedence)`
  unfoldable pub peek_binary : Tokens → Option (ℕ × (Expr → Expr → Expr))
  unfolding binary_precedence
  peek_binary [] = none
  peek_binary (t ∷ ts) = binary_precedence t

  abbrev pub rest_of : Tokens → Tokens
  rest_of [] = []
  rest_of (t ∷ ts) = ts

  parse_literal : Tokens → Parsed (Value f.F64)
  unfolding token_desc
  parse_literal (str_token s ∷ ts) = ok (str s, ts)
  parse_literal (number n ∷ ts) = ok (num n, ts)
  parse_literal (null_token ∷ ts) = ok (null_literal, ts)
  parse_literal ts = err (expected_literal (token_desc f (peek ts)))

  -- Behind IS and IS NOT. The error names the token behind the one that `next` took.
  parse_null : Text → Tokens → Parsed Expr
  unfolding token_desc
  parse_null col (null_token ∷ ts) = ok (is_null col, ts)
  parse_null col ts = err (expected_null (token_desc f (peek (rest_of ts))))

  parse_not_null : Text → Tokens → Parsed Expr
  unfolding token_desc
  parse_not_null col (null_token ∷ ts) = ok (is_not_null col, ts)
  parse_not_null col ts = err (expected_null_after_not (token_desc f (peek (rest_of ts))))

  parse_is : Text → Tokens → Parsed Expr
  unfolding parse_null parse_not_null
  parse_is col (not_token ∷ ts) = parse_not_null col ts
  parse_is col ts = parse_null col ts

  operator_of : Token f.F64 → Option Operator
  operator_of eq_token = some Filter.eq
  operator_of neq_token = some Filter.neq
  operator_of gt_token = some Filter.gt
  operator_of lt_token = some Filter.lt
  operator_of ge_token = some Filter.ge
  operator_of le_token = some Filter.le
  operator_of _ = none

  parse_operator : Text → Token f.F64 → Tokens → Parsed Expr
  unfolding operator_of parse_literal token_desc
  parse_operator col t ts = elim (operator_of t) [
    | none ↦ err (expected_operator col (token_desc f (some t)))
    | some op ↦ (do val ← parse_literal ts; ok (compare col op val.0, val.1))
  ]

  -- `parse_comparison` behind its column.
  parse_predicate : Text → Tokens → Parsed Expr
  unfolding parse_is parse_operator token_desc
  parse_predicate col [] = err (expected_operator col (token_desc f none))
  parse_predicate col (is_token ∷ ts) = parse_is col ts
  parse_predicate col (t ∷ ts) = parse_operator col t ts

  unfoldable pub parse_comparison : Tokens → Parsed Expr
  unfolding parse_predicate
  parse_comparison (ident col ∷ ts) = parse_predicate col ts
  parse_comparison ts = err expected_column

  close_paren : Expr → Tokens → Parsed Expr
  close_paren inner (rparen ∷ ts) = ok (inner, ts)
  close_paren inner ts = err unclosed_paren

  -- What a call leaves is no structural part of the tokens: each call takes a unit of fuel.
  unfoldable mutual
    unfolding close_paren peek_binary

    -- `parse_binary`: a primary, then the loop.
    pub parse_binary : ℕ → ℕ → Tokens → Parsed Expr
    parse_binary zero min_prec ts = err out_of_fuel
    parse_binary (suc n) min_prec ts = do
      lhs ← parse_primary n ts
      binary_loop n min_prec lhs.0 lhs.1

    -- The `while let` of `parse_binary`.
    pub binary_loop : ℕ → ℕ → Expr → Tokens → Parsed Expr
    binary_loop zero min_prec lhs ts = err out_of_fuel
    binary_loop (suc n) min_prec lhs ts = elim (peek_binary ts) [
      | none ↦ ok (lhs, ts)
      | some (prec, combine) ↦ elim (ltb prec min_prec) [
        | true ↦ ok (lhs, ts)
        | false ↦ (do
          rhs ← parse_binary n (prec + 1) (rest_of ts)
          binary_loop n min_prec (combine lhs rhs.0) rhs.1)
      ]
    ]

    pub parse_primary : ℕ → Tokens → Parsed Expr
    parse_primary zero ts = err out_of_fuel
    parse_primary (suc n) (lparen ∷ ts) = do
      inner ← parse_binary n 1 ts
      close_paren inner.0 inner.1
    parse_primary (suc n) (ident col ∷ ts) = parse_comparison (ident col ∷ ts)
    parse_primary (suc n) ts = err (bad_start (token_desc f (peek ts)))

  at_end : Expr → Tokens → Result FilterError Expr
  unfolding token_desc
  at_end expr [] = ok expr
  at_end expr (t ∷ ts) = err (trailing (token_desc f (some t)))

  -- `Parser::parse`
  unfoldable pub parse : Tokens → Result FilterError Expr
  unfolding at_end parse_binary
  parse [] = err empty_expression
  parse (t ∷ ts) = do
    parsed ← parse_binary (2 * length (t ∷ ts) + 2) 1 (t ∷ ts)
    at_end parsed.0 parsed.1
