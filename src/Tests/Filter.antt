-- ===== src/Tests/Filter.antt =====
-- Runs of the lexer and the parser of row filters.
use pg_x.Base.{◌-◌, ◌≡◌, ◌≢◌, refl, some, [], ◌∷◌, false, ◌&&◌, leb, if◌then◌else◌, map, ok, err}
use pg_x.Text.{codes}
use pg_x.Text.Chars.{Unicode, ascii_alphanumeric}
use pg_x.Tests.Replicate.{floats}
use pg_x.Replicate.Filter.{eq, neq, FilterExpr, str, num, compare, is_null, and, or}
use pg_x.Replicate.Filter.Token.{out_of_fuel, expected_null, unexpected_character}
use pg_x.Replicate.Filter.Parser.{parse}
use pg_x.Replicate.Filter.Parser.RoundTrip.{emit, parse-emit}
use pg_x.Replicate.Filter.Lexer.{parse_filter_expr}
use pg_x.Replicate.Filter.Lexer.Fuel.{parse_filter_expr-ne-out_of_fuel}
use pg_x.Replicate.Filter.Sources.{filters_from_sources}

abbrev unicode : Unicode
unicode = record {
  is_alphanumeric = λ c. elim c [ [] ↦ false | b ∷ bs ↦ ascii_alphanumeric b ];
  to_uppercase = map (λ b. if leb b'a' b && leb b b'z' then b - 32 else b);
}

abbrev either : FilterExpr floats.F64
either =
    and (or (compare (codes "a") eq (num 1)) (is_null (codes "b")))
      (compare (codes "c") neq (str (codes "x")))

parse-emit_example : parse floats (emit floats 1 either) ≡ ok either
parse-emit_example = parse-emit floats either

parse_filter_expr-ne-out_of_fuel_example :
    parse_filter_expr unicode floats (codes "(a = 1 or b IS NULL) and c <> 'x'") ≢ err out_of_fuel
parse_filter_expr-ne-out_of_fuel_example =
    parse_filter_expr-ne-out_of_fuel unicode floats (codes "(a = 1 or b IS NULL) and c <> 'x'")

reads_either :
    parse_filter_expr unicode floats (codes "(a = 1 or b IS NULL) and c <> 'x'") ≡ ok either
unfolding parse_filter_expr pg_x.Text.Number.from_str_radix
    pg_x.Replicate.Filter.Parser.parse_comparison
reads_either = refl

-- The error names the token behind the one that should have been NULL.
misnamed : parse_filter_expr unicode floats (codes "a IS 5 )") ≡ err (expected_null (codes "')'"))
unfolding parse_filter_expr pg_x.Text.Number.from_str_radix
    pg_x.Replicate.Filter.Parser.parse_comparison pg_x.Replicate.Filter.Parser.peek
misnamed = refl

unknown : parse_filter_expr unicode floats (codes "a = $1") ≡ err (unexpected_character (codes "$"))
unfolding parse_filter_expr
unknown = refl

scoped :
    filters_from_sources unicode floats [] (codes "public.t: b is null" ∷ [])
    ≡ ok ((some (codes "public", codes "t"), is_null (codes "b")) ∷ [])
unfolding filters_from_sources pg_x.Replicate.Filter.Parser.parse_comparison
scoped = refl
