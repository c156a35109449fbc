-- ===== src/Replicate/Filter/Parser/RoundTrip.antt =====
-- Printing an expression with no more parentheses than it needs, and parsing it, of
-- commands/replicate/filter.rs.
use mathlib.Core.List.{append_assoc, append-nil}
use pg_x.Base.{
  ℕ, zero, suc, ◌+◌, ◌*◌, ◌<◌, ◌≤◌, ◌≡◌, refl, ap, inl, inr, [], ◌∷◌, ◌++◌, Bool, true, false,
  Bool-cases, ltb, length, length-append, ok, arith,
}
use pg_x.Text.{Text}
use pg_x.Replicate.Filter.{
  Floats, Operator, Value, str, num, null_literal, compare, is_null, is_not_null, and, or,
}
use pg_x.Replicate.Filter
use pg_x.Replicate.Filter.Token.{
  Token, ident, str_token, number, eq_token, neq_token, gt_token, lt_token, ge_token, le_token,
  and_token, or_token, not_token, is_token, null_token, lparen, rparen,
}
use pg_x.Replicate.Filter.Parser.{Tokens, Expr, parse_comparison, parse_binary, binary_loop, parse}

module _ (f : Floats) where
  abbrev pub operator_token : Operator → Token f.F64
  operator_token Filter.eq = eq_token
  operator_token Filter.neq = neq_token
  operator_token Filter.gt = gt_token
  operator_token Filter.lt = lt_token
  operator_token Filter.ge = ge_token
  operator_token Filter.le = le_token

  abbrev pub literal_token : Value f.F64 → Token f.F64
  literal_token (str s) = str_token s
  literal_token (num n) = number n
  literal_token null_literal = null_token

  -- OR binds least, then AND; the rest is never put in parentheses.
  abbrev pub precedence : Expr f → ℕ
  precedence (or a b) = 1
  precedence (and a b) = 2
  precedence _ = 3

  abbrev pub parens : Bool → Tokens f → Tokens f
  parens true ts = lparen ∷ (ts ++ rparen ∷ [])
  parens false ts = ts

  -- The tokens of an expression where a precedence of at least `level` is wanted. The right side of
  -- an operator wants one more than the left, so that both operators associate to the left.
  abbrev pub emit : ℕ → Expr f → Tokens f
  emit level (compare col op val) = ident col ∷ operator_token op ∷ literal_token val ∷ []
  emit level (is_null col) = ident col ∷ is_token ∷ null_token ∷ []
  emit level (is_not_null col) = ident col ∷ is_token ∷ not_token ∷ null_token ∷ []
  emit level (and a b) = parens (ltb 2 level) (emit 2 a ++ and_token ∷ emit 3 b)
  emit level (or a b) = parens (ltb 1 level) (emit 1 a ++ or_token ∷ emit 2 b)

  -- What follows an expression of precedence 1 does not begin with AND.
  abbrev Follows : ℕ → Tokens f → Type 0
  Follows (suc zero) (and_token ∷ ts) = ⊥
  Follows level ts = Unit

  abbrev LoopsTo : ℕ → Expr f → Tokens f → Expr f × Tokens f → Type 0
  LoopsTo min_prec e rest r = (g : ℕ) → 2 * length rest < g → binary_loop f g min_prec e rest ≡ ok r

  -- Printed at a level, with a minimum of at most that level: the parser reads the expression, and
  -- goes on with its loop.
  abbrev Reads : ℕ → ℕ → Expr f → Tokens f → Type 0
  Reads min_prec level e printed =
      (rest : Tokens f) (r : Expr f × Tokens f)
      → Follows level rest
      → LoopsTo min_prec e rest r
      → (g : ℕ) → 2 * length (printed ++ rest) + 1 < g
      → parse_binary f g min_prec (printed ++ rest) ≡ ok r

  compare-Reads :
      (min_prec level : ℕ) (col : Text) (op : Operator) (val : Value f.F64)
      → Reads min_prec level (compare col op val) (emit level (compare col op val))
  unfolding parse_binary parse_comparison
  compare-Reads min_prec level col op val rest r s k zero h = absurd (omega arith)
  compare-Reads min_prec level col op val rest r s k (suc zero) h = absurd (omega arith)
  compare-Reads min_prec level col op val rest r s k (suc (suc g)) h = ground (arith, k (suc g))

  is_null-Reads :
      (min_prec level : ℕ) (col : Text)
      → Reads min_prec level (is_null col) (emit level (is_null col))
  unfolding parse_binary parse_comparison
  is_null-Reads min_prec level col rest r s k zero h = absurd (omega arith)
  is_null-Reads min_prec level col rest r s k (suc zero) h = absurd (omega arith)
  is_null-Reads min_prec level col rest r s k (suc (suc g)) h = ground (arith, k (suc g))

  is_not_null-Reads :
      (min_prec level : ℕ) (col : Text)
      → Reads min_prec level (is_not_null col) (emit level (is_not_null col))
  unfolding parse_binary parse_comparison
  is_not_null-Reads min_prec level col rest r s k zero h = absurd (omega arith)
  is_not_null-Reads min_prec level col rest r s k (suc zero) h = absurd (omega arith)
  is_not_null-Reads min_prec level col rest r s k (suc (suc g)) h = ground (arith, k (suc g))

  -- Where the loop wants a precedence above those that follow, it ends.
  stops_at_three : (e : Expr f) (rest : Tokens f) → LoopsTo 3 e rest (e, rest)
  unfolding binary_loop
  stops_at_three e rest zero h = absurd (omega arith)
  stops_at_three e rest (suc g) h = ground arith

  stops_at_two : (e : Expr f) (rest : Tokens f) → Follows 1 rest → LoopsTo 2 e rest (e, rest)
  unfolding binary_loop
  stops_at_two e rest s zero h = absurd (omega arith)
  stops_at_two e [] s (suc g) h = refl
  stops_at_two e (and_token ∷ rest) s (suc g) h = absurd s
  stops_at_two e (t ∷ rest) s (suc g) h = ground arith

  stops_at_rparen : (e : Expr f) (rest : Tokens f) → LoopsTo 1 e (rparen ∷ rest) (e, rparen ∷ rest)
  unfolding binary_loop
  stops_at_rparen e rest zero h = absurd (omega arith)
  stops_at_rparen e rest (suc g) h = refl

  stops_at_end : (e : Expr f) → LoopsTo 1 e [] (e, [])
  unfolding binary_loop
  stops_at_end e zero h = absurd (omega arith)
  stops_at_end e (suc g) h = refl

  parens-Reads :
      (min_prec level : ℕ) (e : Expr f) (body : Tokens f)
      → Reads 1 1 e body
      → Reads min_prec level e (parens true body)
  unfolding parse_binary
  parens-Reads min_prec level e body ih rest r s k zero h = absurd (omega arith)
  parens-Reads min_prec level e body ih rest r s k (suc zero) h = absurd (omega arith)
  parens-Reads min_prec level e body ih rest r s k (suc (suc g)) h =
      let assoc = append_assoc body (rparen ∷ []) rest in
      let shorter : 2 * length (body ++ rparen ∷ rest) + 1 < g = omega (arith, ap length assoc) in
      let inner = ih (rparen ∷ rest) (e, rparen ∷ rest) tt (stops_at_rparen e rest) g shorter in
      ground (arith, assoc, inner, k (suc g), length-append body (rparen ∷ rest))

  and-Reads :
      (min_prec level : ℕ) (a b : Expr f) (left right : Tokens f)
      → min_prec ≤ 2
      → Reads min_prec 2 a left
      → Reads 3 3 b right
      → Reads min_prec level (and a b) (left ++ and_token ∷ right)
  unfolding binary_loop
  and-Reads min_prec level a b left right le ra rb rest r s k g h =
      let assoc = append_assoc left (and_token ∷ right) rest in
      rw assoc (ra (and_token ∷ (right ++ rest)) r tt loop g (rw assoc at h))
    where
      loop : LoopsTo min_prec a (and_token ∷ (right ++ rest)) r
      loop zero lt = absurd (omega arith)
      loop (suc n) lt =
          let taken = rb rest (b, rest) tt (stops_at_three b rest) n (omega arith) in
          let after = k n (omega (arith, length-append right rest)) in ground (arith, taken, after)

  or-Reads :
      (min_prec : ℕ) (a b : Expr f) (left right : Tokens f)
      → min_prec ≤ 1
      → Reads min_prec 1 a left
      → Reads 2 2 b right
      → Reads min_prec 1 (or a b) (left ++ or_token ∷ right)
  unfolding binary_loop
  or-Reads min_prec a b left right le ra rb rest r s k g h =
      let assoc = append_assoc left (or_token ∷ right) rest in
      rw assoc (ra (or_token ∷ (right ++ rest)) r tt loop g (rw assoc at h))
    where
      loop : LoopsTo min_prec a (or_token ∷ (right ++ rest)) r
      loop zero lt = absurd (omega arith)
      loop (suc n) lt =
          let taken = rb rest (b, rest) tt (stops_at_two b rest s) n (omega arith) in
          let after = k n (omega (arith, length-append right rest)) in ground (arith, taken, after)

  emit-Reads :
      (e : Expr f) (min_prec level : ℕ)
      → 0 < min_prec
      → min_prec ≤ level
      → Reads min_prec level e (emit level e)
  emit-Reads (compare col op val) min_prec level pos le = compare-Reads min_prec level col op val
  emit-Reads (is_null col) min_prec level pos le = is_null-Reads min_prec level col
  emit-Reads (is_not_null col) min_prec level pos le = is_not_null-Reads min_prec level col
  emit-Reads (and a b) min_prec level pos le =
      let right = emit-Reads b 3 3 (omega arith) (omega arith) in
      elim (Bool-cases (ltb 2 level)) [
        | inl high ↦ rw high (
            parens-Reads min_prec level (and a b) (emit 2 a ++ and_token ∷ emit 3 b) (
              and-Reads 1 1 a b (emit 2 a) (emit 3 b) (omega arith)
                (emit-Reads a 1 2 (omega arith) (omega arith)) right))
        | inr low ↦
            let bound : min_prec ≤ 2 = ground arith in
            rw low (
              and-Reads min_prec level a b (emit 2 a) (emit 3 b) bound
                (emit-Reads a min_prec 2 pos bound) right)
      ]
  emit-Reads (or a b) min_prec level pos le =
      let right = emit-Reads b 2 2 (omega arith) (omega arith) in
      let body =
        or-Reads 1 a b (emit 1 a) (emit 2 b) (omega arith)
          (emit-Reads a 1 1 (omega arith) (omega arith)) right in
      elim (Bool-cases (ltb 1 level)) [
        | inl high ↦
            rw high (parens-Reads min_prec level (or a b) (emit 1 a ++ or_token ∷ emit 2 b) body)
        | inr low ↦
            let one : level ≡ 1 = ground arith in
            let min_one : min_prec ≡ 1 = ground arith in rw (one, min_one) body
      ]

  -- Every expression that is printed with no more parentheses than AND before OR and association to
  -- the left need is parsed back to itself.
  pub parse-emit : (e : Expr f) → parse f (emit 1 e) ≡ ok e
  unfolding parse
  parse-emit e =
      at_tokens (emit 1 e)
        (emit-Reads e 1 1 (omega arith) (omega arith) [] (e, []) tt (stops_at_end e))
    where
      at_tokens :
          (ts : Tokens f)
          → ((g : ℕ) → 2 * length (ts ++ []) + 1 < g → parse_binary f g 1 (ts ++ []) ≡ ok (e, []))
          → parse f ts ≡ ok e
      at_tokens [] reads = unfold parse_binary in cc (reads 3 (omega arith))
      at_tokens (t ∷ ts) reads =
          let whole =
            rw append-nil at
              (reads (2 * length (t ∷ ts) + 2) (omega (arith, length-append (t ∷ ts) []))) in
          rw whole refl
