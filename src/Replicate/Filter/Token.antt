-- ===== src/Replicate/Filter/Token.antt =====
-- The tokens of commands/replicate/filter.rs, and how its errors name them.
use pg_x.Base.{Option, none, some, ◌++◌}
use pg_x.Text.{Text, codes}
use pg_x.Replicate.Filter.{Floats}

pub data Token (F : Type 0) : Type 0 where
  ident str_token : Text → Token F
  number : F → Token F
  eq_token neq_token gt_token lt_token ge_token le_token : Token F
  and_token or_token not_token is_token null_token lparen rparen : Token F

unfoldable pub token_desc : (f : Floats) → Option (Token f.F64) → Text
token_desc f none = codes "end of expression"
token_desc f (some (ident s)) = codes "identifier '" ++ (s ++ codes "'")
token_desc f (some (str_token s)) = codes "a string literal"
token_desc f (some (number n)) = codes "number '" ++ (f.print n ++ codes "'")
token_desc f (some lparen) = codes "'('"
token_desc f (some rparen) = codes "')'"
token_desc f (some is_token) = codes "'IS'"
token_desc f (some not_token) = codes "'NOT'"
token_desc f (some null_token) = codes "'NULL'"
token_desc f (some and_token) = codes "'AND'"
token_desc f (some or_token) = codes "'OR'"
token_desc f (some eq_token) = codes "'='"
token_desc f (some neq_token) = codes "'!=' or '<>'"
token_desc f (some gt_token) = codes "'>'"
token_desc f (some lt_token) = codes "'<'"
token_desc f (some ge_token) = codes "'>='"
token_desc f (some le_token) = codes "'<='"

-- What the lexer and the parser refuse. The last constructor is the model's: no fuel is left.
pub data FilterError : Type 0 where
  expected_eq_after_bang unexpected_minus unterminated_string : FilterError
  unexpected_character invalid_number : Text → FilterError
  empty_expression unclosed_paren expected_column : FilterError
  trailing bad_start expected_literal : Text → FilterError
  expected_null expected_null_after_not : Text → FilterError
  expected_operator : (col found : Text) → FilterError
  out_of_fuel : FilterError
