-- ===== src/Replicate/Filter/Parser/Fuel.antt =====
-- The fuel of the parser of commands/replicate/filter.rs, against what it consumes.
use pg_x.Base.{
  ℕ, zero, suc, ◌+◌, ◌*◌, ◌<◌, ◌≤◌, ◌≡◌, ◌≢◌, inl, inr, some, [], ◌∷◌, Bool-cases, Option-cases,
  ltb, length, ok, err, ◌>>=◌, arith,
}
use pg_x.Text.{Text}
use pg_x.Replicate.Filter.{Floats}
use pg_x.Replicate.Filter.Token.{Token, ident, lparen, out_of_fuel}
use pg_x.Replicate.Filter.Parser.{
  Tokens, Expr, Parsed, peek_binary, rest_of, parse_literal, parse_is, parse_operator,
  parse_predicate, parse_comparison, close_paren, parse_binary, binary_loop, parse_primary, at_end,
  parse,
}

module _ (f : Floats) where
  -- A result that is no lack of fuel, and leaves fewer tokens than `n`.
  abbrev pub Ends : {A : Type 0} → ℕ → Parsed f A → Type 0
  Ends n (ok (a, rest)) = length rest < n
  Ends n (err e) = e ≢ out_of_fuel

  Ends-bind :
      {A B : Type 0} (n k : ℕ) (m : Parsed f A) (next : A × Tokens f → Parsed f B)
      → Ends n m
      → ((a : A) (rest : Tokens f) → length rest < n → Ends k (next (a, rest)))
      → Ends k (m >>= next)
  Ends-bind n k (err e) next h g = h
  Ends-bind n k (ok (a, rest)) next h g = g a rest h

  parse_literal-Ends : (ts : Tokens f) → Ends (suc (length ts)) (parse_literal f ts)
  unfolding parse_literal
  parse_literal-Ends ts = ground arith

  parse_is-Ends : (col : Text) (ts : Tokens f) → Ends (suc (length ts)) (parse_is f col ts)
  unfolding parse_is
  parse_is-Ends col ts = ground arith

  parse_operator-Ends :
      (col : Text) (t : Token f.F64) (ts : Tokens f)
      → Ends (suc (length ts)) (parse_operator f col t ts)
  unfolding parse_operator
  parse_operator-Ends col t ts = ground (arith, parse_literal-Ends ts)

  parse_predicate-Ends :
      (col : Text) (ts : Tokens f) → Ends (suc (length ts)) (parse_predicate f col ts)
  unfolding parse_predicate
  parse_predicate-Ends col ts = ground arith

  parse_comparison-Ends : (ts : Tokens f) → Ends (length ts) (parse_comparison f ts)
  unfolding parse_comparison
  parse_comparison-Ends [] = ground arith
  parse_comparison-Ends (ident col ∷ ts) = parse_predicate-Ends col ts
  parse_comparison-Ends (t ∷ ts) = ground arith

  close_paren-Ends : (e : Expr f) (ts : Tokens f) → Ends (suc (length ts)) (close_paren f e ts)
  unfolding close_paren
  close_paren-Ends e ts = ground arith

  Ends-weaken : {A : Type 0} (n k : ℕ) (m : Parsed f A) → n ≤ k → Ends n m → Ends k m
  Ends-weaken n k (ok (a, rest)) le h = omega arith
  Ends-weaken n k (err e) le h = h

  peek_binary-lt :
      (ts : Tokens f) {x : ℕ × (Expr f → Expr f → Expr f)}
      → peek_binary f ts ≡ some x
      → length (rest_of f ts) < length ts
  unfolding peek_binary
  peek_binary-lt [] h = cc
  peek_binary-lt (t ∷ ts) h = omega arith

  mutual
    unfolding parse_binary binary_loop parse_primary

    parse_binary-Ends :
        (n min_prec : ℕ) (ts : Tokens f)
        → 2 * length ts + 1 < n
        → Ends (length ts) (parse_binary f n min_prec ts)
    parse_binary-Ends zero min_prec ts h = absurd (omega arith)
    parse_binary-Ends (suc n) min_prec ts h =
        Ends-bind (length ts) (length ts) (parse_primary f n ts) _
          (parse_primary-Ends n ts (omega arith))
          (λ lhs rest lt.
            Ends-weaken (suc (length rest)) (length ts) (binary_loop f n min_prec lhs rest)
              (omega arith) (binary_loop-Ends n min_prec lhs rest (omega arith)))

    binary_loop-Ends :
        (n min_prec : ℕ) (lhs : Expr f) (ts : Tokens f)
        → 2 * length ts < n
        → Ends (suc (length ts)) (binary_loop f n min_prec lhs ts)
    binary_loop-Ends zero min_prec lhs ts h = absurd (omega arith)
    binary_loop-Ends (suc n) min_prec lhs ts h = elim (Option-cases (peek_binary f ts)) [
      | inl e ↦ rw (e, binary_loop) (omega arith)
      | inr ((prec, combine), e) ↦ elim (Bool-cases (ltb prec min_prec)) [
        | inl low ↦ rw (e, low, binary_loop) (omega arith)
        | inr high ↦
            let shorter = peek_binary-lt ts e in
            rw (e, high, binary_loop)
              (Ends-bind (length (rest_of f ts)) (suc (length ts))
                (parse_binary f n (prec + 1) (rest_of f ts)) _
                (parse_binary-Ends n (prec + 1) (rest_of f ts) (omega arith))
                (λ rhs rest lt.
                  Ends-weaken (suc (length rest)) (suc (length ts))
                    (binary_loop f n min_prec (combine lhs rhs) rest) (omega arith)
                    (binary_loop-Ends n min_prec (combine lhs rhs) rest (omega arith))))
      ]
    ]

    parse_primary-Ends :
        (n : ℕ) (ts : Tokens f) → 2 * length ts < n → Ends (length ts) (parse_primary f n ts)
    parse_primary-Ends zero ts h = absurd (omega arith)
    parse_primary-Ends (suc n) (lparen ∷ ts) h =
        Ends-bind (length ts) (suc (length ts)) (parse_binary f n 1 ts) _
          (parse_binary-Ends n 1 ts (omega arith))
          (λ inner rest lt.
            Ends-weaken (suc (length rest)) (suc (length ts)) (close_paren f inner rest)
              (omega arith) (close_paren-Ends inner rest))
    parse_primary-Ends (suc n) (ident col ∷ ts) h = parse_comparison-Ends (ident col ∷ ts)
    parse_primary-Ends (suc n) ts h = ground arith

  at_end-fuel : (e : Expr f) (ts : Tokens f) → at_end f e ts ≢ err out_of_fuel
  unfolding at_end
  at_end-fuel e ts = ground arith

  parse_end :
      (r : Parsed f (Expr f)) (n : ℕ)
      → Ends n r
      → (r >>= λ parsed. at_end f parsed.0 parsed.1) ≢ err out_of_fuel
  parse_end (ok (e, rest)) n h = at_end-fuel e rest
  parse_end (err x) n h = λ p. h (cc)

  -- The fuel that `parse` hands out is enough for every list of tokens: the recursion of the source
  -- ends, since each call consumes a token before the next.
  pub parse-ne-out_of_fuel : (ts : Tokens f) → parse f ts ≢ err out_of_fuel
  unfolding parse
  parse-ne-out_of_fuel [] = ground arith
  parse-ne-out_of_fuel (t ∷ ts) =
      parse_end (parse_binary f (2 * length (t ∷ ts) + 2) 1 (t ∷ ts)) (length (t ∷ ts))
        (parse_binary-Ends (2 * length (t ∷ ts) + 2) 1 (t ∷ ts) (omega arith))
