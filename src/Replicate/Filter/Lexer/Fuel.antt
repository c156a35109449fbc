-- ===== src/Replicate/Filter/Lexer/Fuel.antt =====
-- The fuel of the lexer of commands/replicate/filter.rs, against the characters that a token takes.
use native.Mathlib.Nat.{le_refl}
use pg_x.Base.{
  ℕ, zero, suc, ◌<◌, ◌≤◌, ◌≡◌, ◌≢◌, refl, ◌⊎◌, inl, inr, Bool-cases, Option-cases, none, some, List,
  [], ◌∷◌, Bool, true, false, length, Result, ok, err, ◌>>=◌, arith,
}
use pg_x.Text.{Text}
use pg_x.Text.Chars.{Char, chars, is_char, is_ascii_digit, Unicode}
use pg_x.Replicate.Filter.{Floats}
use pg_x.Replicate.Filter.Token.{
  Token, FilterError, number, eq_token, neq_token, gt_token, lt_token, ge_token, le_token, lparen,
  rparen, expected_eq_after_bang, unexpected_minus, unexpected_character, invalid_number,
  out_of_fuel,
}
use pg_x.Replicate.Filter.Parser.{parse}
use pg_x.Replicate.Filter.Parser.Fuel.{parse-ne-out_of_fuel}
use pg_x.Replicate.Filter.Lexer.{
  Chars, skip_ws, push_result, lex_string, number_chars, sign_and_number, Lexed, is_word_char,
  word_chars, lex_number, lex_word, behind, next_is, next_is_digit, str_result, token_at,
  token_from, next_token, tokens_from, parse_filter_expr,
}

skip_ws-le : (cs : Chars) → length (skip_ws cs) ≤ length cs
unfolding skip_ws
skip_ws-le [] = omega arith
skip_ws-le (c ∷ cs) = ground (arith, skip_ws-le cs)

-- A result that leaves at most `n` characters, and is no lack of fuel.
abbrev Leaves : {A : Type 0} → ℕ → Result FilterError (A × Chars) → Type 0
Leaves n (ok (a, rest)) = length rest ≤ n
Leaves n (err e) = e ≢ out_of_fuel

push_result-Leaves :
    (n k : ℕ) (c : Char) (r : Result FilterError (Text × Chars))
    → n ≤ k
    → Leaves n r
    → Leaves k (push_result c r)
unfolding push_result
push_result-Leaves n k c (ok (s, rest)) le h = omega arith
push_result-Leaves n k c (err e) le h = h

lex_string-Leaves : (cs : Chars) → Leaves (length cs) (lex_string cs)
unfolding lex_string
lex_string-Leaves [] = ground arith
lex_string-Leaves (c ∷ []) = elim (Bool-cases (is_char b'\'' c)) [
  | inl e ↦ rw e (omega arith)
  | inr e ↦ rw e (λ p. cc)
]
lex_string-Leaves (c ∷ d ∷ cs) = elim (Bool-cases (is_char b'\'' c)) [
  | inl e ↦ elim (Bool-cases (is_char b'\'' d)) [
    | inl e' ↦
        rw (e, e')
          (push_result-Leaves (length cs) (suc (suc (length cs))) c (lex_string cs) (omega arith)
            (lex_string-Leaves cs))
    | inr e' ↦ rw (e, e') (omega arith)
  ]
  | inr e ↦ rw e (
      push_result-Leaves (suc (length cs)) (suc (suc (length cs))) c (lex_string (d ∷ cs))
        (omega arith) (lex_string-Leaves (d ∷ cs)))
]

number_chars-le : (has_dot : Bool) (cs : Chars) → length (number_chars has_dot cs).1 ≤ length cs
unfolding number_chars
number_chars-le has_dot [] = omega arith
number_chars-le has_dot (c ∷ cs) =
    ground (arith, number_chars-le has_dot cs, number_chars-le true cs)

sign_and_number-le :
    (c : Char) (cs : Chars)
    → ((is_char b'-' c ≡ true) ⊎ (is_ascii_digit c ≡ true))
    → length (sign_and_number (c ∷ cs)).1 ≤ length cs
unfolding sign_and_number number_chars
sign_and_number-le c cs h = elim (Bool-cases (is_char b'-' c)) [
  | inl e ↦ rw e (number_chars-le false cs)
  | inr e ↦ elim h [ inl e' ↦ absurd (cc) | inr d ↦ rw (e, d) (number_chars-le false cs) ]
]

module _ (u : Unicode) (f : Floats) where
  word_chars-le : (cs : Chars) → length (word_chars u f cs).1 ≤ length cs
  unfolding word_chars
  word_chars-le [] = omega arith
  word_chars-le (c ∷ cs) = ground (arith, word_chars-le cs)

  -- A token leaves at most `n` characters.
  unfoldable Shrinks : ℕ → Lexed u f → Type 0
  Shrinks n (ok none) = Unit
  Shrinks n (ok (some (t, rest))) = length rest ≤ n
  Shrinks n (err e) = e ≢ out_of_fuel

  token-Shrinks :
      (n : ℕ) (t : Token f.F64) (rest : Chars) → length rest ≤ n → Shrinks n (ok (some (t, rest)))
  unfolding Shrinks
  token-Shrinks n t rest h = h

  err-Shrinks : (n : ℕ) (e : FilterError) → e ≢ out_of_fuel → Shrinks n (err e)
  unfolding Shrinks
  err-Shrinks n e h = h

  lex_word-Shrinks :
      (c : Char) (cs : Chars)
      → is_word_char u f c ≡ true
      → Shrinks (length cs) (lex_word u f (c ∷ cs))
  unfolding lex_word Shrinks
  lex_word-Shrinks c cs e = rw e (word_chars-le cs)

  number-Shrinks :
      (n : ℕ) (s : Text) (rest : Chars)
      → length rest ≤ n
      → Shrinks n
          (elim (f.parse s) [ none ↦ err (invalid_number s) | some x ↦ ok (some (number x, rest)) ])
  unfolding Shrinks
  number-Shrinks n s rest h = elim (Option-cases (f.parse s)) [
    | inl e ↦ rw e (λ p. cc)
    | inr (x, e) ↦ rw e h
  ]

  lex_number-Shrinks :
      (c : Char) (cs : Chars)
      → ((is_char b'-' c ≡ true) ⊎ (is_ascii_digit c ≡ true))
      → Shrinks (length cs) (lex_number u f (c ∷ cs))
  unfolding lex_number
  lex_number-Shrinks c cs h =
      number-Shrinks (length cs) (sign_and_number (c ∷ cs)).0 (sign_and_number (c ∷ cs)).1
        (sign_and_number-le c cs h)

  str_result-Shrinks :
      (n : ℕ) (r : Result FilterError (Text × Chars)) → Leaves n r → Shrinks n (str_result u f r)
  unfolding str_result Shrinks
  str_result-Shrinks n (ok (s, rest)) h = h
  str_result-Shrinks n (err e) h = h

  behind-le : (cs : Chars) → length (behind cs) ≤ length cs
  behind-le [] = omega arith
  behind-le (c ∷ cs) = omega arith

  token_at-Shrinks : (c : Char) (cs : Chars) → Shrinks (length cs) (token_at u f c cs)
  unfolding token_at
  token_at-Shrinks c cs =
      let n = length cs in
      elim (Bool-cases (is_char b'(' c)) [
        | inl e ↦ rw e (token-Shrinks n lparen cs (le_refl n))
        | inr e ↦ rw e (elim (Bool-cases (is_char b')' c)) [
          | inl e ↦ rw e (token-Shrinks n rparen cs (le_refl n))
          | inr e ↦ rw e (elim (Bool-cases (is_char b'\'' c)) [
            | inl e ↦ rw e (str_result-Shrinks n (lex_string cs) (lex_string-Leaves cs))
            | inr e ↦ rw e (elim (Bool-cases (is_char b'=' c)) [
              | inl e ↦ rw e (token-Shrinks n eq_token cs (le_refl n))
              | inr e ↦ rw e (elim (Bool-cases (is_char b'!' c)) [
                | inl e ↦ rw e (elim (Bool-cases (next_is b'=' cs)) [
                  | inl e ↦ rw e (token-Shrinks n neq_token (behind cs) (behind-le cs))
                  | inr e ↦ rw e (err-Shrinks n expected_eq_after_bang (λ p. cc))
                ])
                | inr e ↦ rw e (elim (Bool-cases (is_char b'<' c)) [
                  | inl e ↦ rw e (elim (Bool-cases (next_is b'=' cs)) [
                    | inl e ↦ rw e (token-Shrinks n le_token (behind cs) (behind-le cs))
                    | inr e ↦ rw e (elim (Bool-cases (next_is b'>' cs)) [
                      | inl e ↦ rw e (token-Shrinks n neq_token (behind cs) (behind-le cs))
                      | inr e ↦ rw e (token-Shrinks n lt_token cs (le_refl n))
                    ])
                  ])
                  | inr e ↦ rw e (elim (Bool-cases (is_char b'>' c)) [
                    | inl e ↦ rw e (elim (Bool-cases (next_is b'=' cs)) [
                      | inl e ↦ rw e (token-Shrinks n ge_token (behind cs) (behind-le cs))
                      | inr e ↦ rw e (token-Shrinks n gt_token cs (le_refl n))
                    ])
                    | inr e ↦ rw e (elim (Bool-cases (is_char b'-' c)) [
                      | inl e ↦ rw e (elim (Bool-cases (next_is_digit cs)) [
                        | inl d ↦ rw d (lex_number-Shrinks c cs (inl e))
                        | inr d ↦ rw d (err-Shrinks n unexpected_minus (λ p. cc))
                      ])
                      | inr e ↦ rw e (elim (Bool-cases (is_ascii_digit c)) [
                        | inl e ↦ rw e (lex_number-Shrinks c cs (inr e))
                        | inr e ↦ rw e (elim (Bool-cases (is_word_char u f c)) [
                          | inl e ↦ rw e (token-Shrinks n _ _ (word_chars-le cs))
                          | inr e ↦ rw e (err-Shrinks n (unexpected_character c) (λ p. cc))
                        ])
                      ])
                    ])
                  ])
                ])
              ])
            ])
          ])
        ])
      ]

  token_from-Shrinks :
      (cs : Chars) {t : Token f.F64} {rest : Chars}
      → token_from u f cs ≡ ok (some (t, rest))
      → length rest < length cs
  unfolding token_from Shrinks
  token_from-Shrinks [] e = cc
  token_from-Shrinks (c ∷ cs) e = let h = token_at-Shrinks c cs in let k = rw e at h in omega arith

  token_from-fuel : (cs : Chars) {e : FilterError} → token_from u f cs ≡ err e → e ≢ out_of_fuel
  unfolding token_from Shrinks
  token_from-fuel [] p = cc
  token_from-fuel (c ∷ cs) p = let h = token_at-Shrinks c cs in rw p at h

  with_token :
      (t : Token f.F64) (r : Result FilterError (List (Token f.F64)))
      → r ≢ err out_of_fuel
      → (r >>= λ ts. ok (t ∷ ts)) ≢ err out_of_fuel
  with_token t (ok ts) g = λ p. cc
  with_token t (err e) g = λ p. g (cc)

  tokens-step :
      (k : Chars → Result FilterError (List (Token f.F64))) (r : Lexed u f)
      → ((t : Token f.F64) (rest : Chars) → r ≡ ok (some (t, rest)) → k rest ≢ err out_of_fuel)
      → ((e : FilterError) → r ≡ err e → e ≢ out_of_fuel)
      → (elim r [
        | err e ↦ err e
        | ok none ↦ ok []
        | ok (some (t, rest)) ↦ (do ts ← k rest; ok (t ∷ ts))
      ])
        ≢ err out_of_fuel
  tokens-step k (ok none) hk he = λ p. cc
  tokens-step k (ok (some (t, rest))) hk he = with_token t (k rest) (hk t rest refl)
  tokens-step k (err e) hk he = λ p. he e refl (cc)

  tokens_from-fuel : (n : ℕ) (cs : Chars) → length cs < n → tokens_from u f n cs ≢ err out_of_fuel
  unfolding tokens_from next_token
  tokens_from-fuel zero cs h = absurd (omega arith)
  tokens_from-fuel (suc n) cs h =
      tokens-step (tokens_from u f n) (token_from u f (skip_ws cs))
        (λ t rest e.
          let k = token_from-Shrinks (skip_ws cs) e in
          let l = skip_ws-le cs in tokens_from-fuel n rest (omega arith))
        (λ e p. token_from-fuel (skip_ws cs) p)

  -- Lexing and parsing a filter never ends for lack of fuel: every text is a filter or is refused
  -- with one of the code's errors.
  pub parse_filter_expr-ne-out_of_fuel :
      (input : Text) → parse_filter_expr u f input ≢ err out_of_fuel
  unfolding parse_filter_expr
  parse_filter_expr-ne-out_of_fuel input =
      with_tokens (tokens_from u f (suc (length (chars input))) (chars input))
        (tokens_from-fuel (suc (length (chars input))) (chars input) (omega arith))
    where
      with_tokens :
          (r : Result FilterError (List (Token f.F64)))
          → r ≢ err out_of_fuel
          → (r >>= parse f) ≢ err out_of_fuel
      with_tokens (ok ts) h = parse-ne-out_of_fuel f ts
      with_tokens (err e) h = λ p. h (cc)
