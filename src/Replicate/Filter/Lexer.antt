-- ===== src/Replicate/Filter/Lexer.antt =====
-- The lexer of commands/replicate/filter.rs. The peekable iterator is the list of the characters that
-- are left.
pub mod Fuel
use pg_x.Base.{
  ℕ, zero, suc, Option, none, some, List, [], ◌∷◌, ◌++◌, Bool, true, false, not, ◌&&◌, ◌||◌,
  if◌then◌else◌, length, Result, ok, err, ◌>>=◌,
}
use pg_x.Map.{text_eq}
use pg_x.Text.{Text, codes}
use pg_x.Text.Chars.{Char, chars, is_char, is_ascii_digit, is_ascii_whitespace, Unicode}
use pg_x.Replicate.Filter.{Floats, FilterExpr}
use pg_x.Replicate.Filter.Token.{
  Token, FilterError, ident, str_token, number, eq_token, neq_token, gt_token, lt_token, ge_token,
  le_token, and_token, or_token, not_token, is_token, null_token, lparen, rparen,
  expected_eq_after_bang, unexpected_minus, unterminated_string, unexpected_character,
  invalid_number, out_of_fuel,
}
use pg_x.Replicate.Filter.Parser.{parse}

abbrev pub Chars : Type 0
Chars = List Char

unfoldable pub skip_ws : Chars → Chars
skip_ws [] = []
skip_ws (c ∷ cs) = let rest = skip_ws cs in if is_ascii_whitespace c then rest else c ∷ cs

abbrev pub push_front : Char → Text × Chars → Text × Chars
push_front c (s, cs) = (c ++ s, cs)

push_result : Char → Result FilterError (Text × Chars) → Result FilterError (Text × Chars)
push_result c (ok r) = ok (push_front c r)
push_result c (err e) = err e

-- `lex_string` behind the opening quote.
unfoldable pub lex_string : Chars → Result FilterError (Text × Chars)
unfolding push_result
lex_string [] = err unterminated_string
lex_string (c ∷ []) = if is_char b'\'' c then ok ([], []) else err unterminated_string
lex_string (c ∷ d ∷ cs) =
    let doubled = push_result c (lex_string cs) in
    let inside = push_result c (lex_string (d ∷ cs)) in
    if is_char b'\'' c then if is_char b'\'' d then doubled else ok ([], d ∷ cs) else inside

-- The loop of `lex_number`.
unfoldable pub number_chars : Bool → Chars → Text × Chars
number_chars has_dot [] = ([], [])
number_chars has_dot (c ∷ cs) =
    let digits = number_chars has_dot cs in
    let behind_dot = number_chars true cs in
    if is_ascii_digit c
    then push_front c digits
    else if is_char b'.' c && not has_dot
    then push_front c behind_dot
    else ([], c ∷ cs)

sign_and_number : Chars → Text × Chars
unfolding number_chars
sign_and_number [] = ([], [])
sign_and_number (c ∷ cs) =
    if is_char b'-' c then push_front c (number_chars false cs) else number_chars false (c ∷ cs)

-- The peeks at the next character.
abbrev next_is : ℕ → Chars → Bool
next_is b [] = false
next_is b (c ∷ cs) = is_char b c

abbrev next_is_digit : Chars → Bool
next_is_digit [] = false
next_is_digit (c ∷ cs) = is_ascii_digit c

abbrev behind : Chars → Chars
behind [] = []
behind (c ∷ cs) = cs

module _ (u : Unicode) (f : Floats) where
  abbrev pub Lexed : Type 0
  Lexed = Result FilterError (Option (Token f.F64 × Chars))

  abbrev token : Token f.F64 → Chars → Lexed
  token t cs = ok (some (t, cs))

  abbrev pub is_word_char : Char → Bool
  is_word_char c = u.is_alphanumeric c || is_char b'_' c

  -- The loop of `lex_word`.
  unfoldable pub word_chars : Chars → Text × Chars
  word_chars [] = ([], [])
  word_chars (c ∷ cs) =
      let rest = word_chars cs in if is_word_char c then push_front c rest else ([], c ∷ cs)

  -- The keywords of `lex_word`.
  unfoldable pub word_token : Text → Token f.F64
  word_token s =
      let upper = u.to_uppercase s in
      if text_eq upper (codes "AND")
      then and_token
      else if text_eq upper (codes "OR")
      then or_token
      else if text_eq upper (codes "NOT")
      then not_token
      else if text_eq upper (codes "IS")
      then is_token
      else if text_eq upper (codes "NULL")
      then null_token
      else ident s

  unfoldable pub lex_number : Chars → Lexed
  unfolding sign_and_number
  lex_number cs =
      let (s, rest) = sign_and_number cs in
      elim (f.parse s) [ none ↦ err (invalid_number s) | some n ↦ token (number n) rest ]

  unfoldable pub lex_word : Chars → Lexed
  unfolding word_chars word_token
  lex_word cs = let (s, rest) = word_chars cs in token (word_token s) rest

  str_result : Result FilterError (Text × Chars) → Lexed
  str_result (ok (s, rest)) = token (str_token s) rest
  str_result (err e) = err e

  -- `next_token` at a character, behind `skip_ws`.
  token_at : Char → Chars → Lexed
  unfolding str_result lex_string lex_number lex_word
  token_at c cs =
      if is_char b'(' c
      then token lparen cs
      else if is_char b')' c
      then token rparen cs
      else if is_char b'\'' c
      then str_result (lex_string cs)
      else if is_char b'=' c
      then token eq_token cs
      else if is_char b'!' c
      then (if next_is b'=' cs then token neq_token (behind cs) else err expected_eq_after_bang)
      else if is_char b'<' c
      then (if next_is b'=' cs
          then token le_token (behind cs)
          else if next_is b'>' cs
          then token neq_token (behind cs)
          else token lt_token cs)
      else if is_char b'>' c
      then (if next_is b'=' cs then token ge_token (behind cs) else token gt_token cs)
      else if is_char b'-' c
      then (if next_is_digit cs then lex_number (c ∷ cs) else err unexpected_minus)
      else if is_ascii_digit c
      then lex_number (c ∷ cs)
      else if is_word_char c
      then lex_word (c ∷ cs)
      else err (unexpected_character c)

  token_from : Chars → Lexed
  unfolding token_at
  token_from [] = ok none
  token_from (c ∷ cs) = token_at c cs

  unfoldable pub next_token : Chars → Lexed
  unfolding token_from skip_ws
  next_token cs = token_from (skip_ws cs)

  -- The loop of `parse_filter_expr`. Every token takes a character, so one round more than there are
  -- characters is enough.
  unfoldable pub tokens_from : ℕ → Chars → Result FilterError (List (Token f.F64))
  unfolding next_token
  tokens_from zero cs = err out_of_fuel
  tokens_from (suc n) cs = elim (next_token cs) [
    | err e ↦ err e
    | ok none ↦ ok []
    | ok (some (t, rest)) ↦ (do ts ← tokens_from n rest; ok (t ∷ ts))
  ]

  unfoldable pub parse_filter_expr : Text → Result FilterError (FilterExpr f.F64)
  unfolding tokens_from parse chars
  parse_filter_expr input = do
    tokens ← tokens_from (suc (length (chars input))) (chars input)
    parse f tokens
