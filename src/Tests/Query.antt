-- ===== src/Tests/Query.antt =====
-- Query documents that src/graphql/query.rs reads, its own tests among them.
use pg_x.Base.{
  ℕ, ◌==◌, ◌||◌, ◌≡◌, ◌≢◌, ◌≤◌, refl, ok, err, [], ◌∷◌, ◌++◌, Bool, true, false, if◌then◌else◌, All,
  arith,
}
use pg_x.Text.{Text, codes}
use pg_x.Text.Split.{before_last, split, split_once, strip_prefix, trim}
use pg_x.Graphql.Query.{
  FieldSelections, end, field, newline, VariableDef, panics, no_selection_set, unclosed_parenthesis,
  parse_query,
}
use pg_x.Graphql.Query.Print.{IsInside, IsFieldName, IsPrintable}
use pg_x.Graphql.Query.Header.{IsWordChar, IsWord, IsVariable}
use pg_x.Graphql.Query.Document.{print_query, parse_query-print_query}

abbrev is_plain_word : Text → Bool
is_plain_word [] = true
is_plain_word (c ∷ w) =
    if c == b'{' || (c == b'(' || (c == b',' || (c == b':' || c == b'!')))
    then false
    else is_plain_word w

word_chars : (w : Text) → is_plain_word w ≡ true → All IsWordChar w
word_chars [] h = tt
word_chars (c ∷ w) h = (
  (
    λ e. ground (arith, e, h),
    λ e. ground (arith, e, h),
    λ e. ground (arith, e, h),
    λ e. ground (arith, e, h),
    λ e. ground (arith, e, h),
  ),
  word_chars w (ground (arith, h)),
)

abbrev is_plain_line : Text → Bool
is_plain_line [] = true
is_plain_line (c ∷ w) =
    if c == b'{' || (c == b'}' || (c == newline || c == 0x0d)) then false else is_plain_line w

line_chars : (w : Text) → is_plain_line w ≡ true → All IsInside w
line_chars [] h = tt
line_chars (c ∷ w) h = (
  (
    λ e. ground (arith, e, h),
    λ e. ground (arith, e, h),
    λ e. ground (arith, e, h),
    λ e. ground (arith, e, h),
  ),
  line_chars w (ground (arith, h)),
)

-- A text between two visible characters.
abbrev between : ℕ → Text → ℕ → Text
between first middle last = first ∷ (middle ++ last ∷ [])

text-IsWord :
    (first : ℕ) (middle : Text) (last : ℕ)
    → (0x21 ≤ first) × (first ≤ 0x7e)
    → (0x21 ≤ last) × (last ≤ 0x7e)
    → is_plain_word (between first middle last) ≡ true
    → IsWord (between first middle last)
text-IsWord first middle last p q h = record {
  starts = (first, middle ++ last ∷ [], refl, p);
  ends = (first ∷ middle, last, refl, q);
  chars = word_chars (between first middle last) h;
}

line-IsFieldName :
    (first : ℕ) (middle : Text) (last : ℕ)
    → (0x21 ≤ first) × (first ≤ 0x7e)
    → (0x21 ≤ last) × (last ≤ 0x7e)
    → first ≢ b'#'
    → is_plain_line (between first middle last) ≡ true
    → IsFieldName (between first middle last)
line-IsFieldName first middle last p q n h = record {
  starts = (first, middle ++ last ∷ [], refl, p);
  ends = (first ∷ middle, last, refl, q);
  no_comment = n;
  inside = line_chars (between first middle last) h;
}

abbrev mat_no : VariableDef
mat_no = record { name = codes "mat_no"; var_type = codes "String"; required = true }

abbrev material : FieldSelections
material =
    field (codes "material(mat_no: $mat_no)")
      (field (codes "mat_no") end true
        (field (codes "sizes") (field (codes "code") end true end) false end))
      false end

mat_no-IsVariable : IsVariable mat_no
mat_no-IsVariable = (
  text-IsWord b'm' (codes "at_n") b'o' (omega arith, omega arith) (omega arith, omega arith) refl,
  text-IsWord b'S' (codes "trin") b'g' (omega arith, omega arith) (omega arith, omega arith) refl,
)

material-IsPrintable : IsPrintable material
material-IsPrintable = (
  line-IsFieldName b'm' (codes "aterial(mat_no: $mat_no") b')' (omega arith, omega arith)
      (omega arith, omega arith) (λ e. omega (arith, e)) refl,
  tt,
  (
    line-IsFieldName b'm' (codes "at_n") b'o' (omega arith, omega arith) (omega arith, omega arith)
        (λ e. omega (arith, e)) refl,
    refl,
    tt,
    (
      line-IsFieldName b's' (codes "ize") b's' (omega arith, omega arith) (omega arith, omega arith)
          (λ e. omega (arith, e)) refl,
      tt,
      (
        line-IsFieldName b'c' (codes "od") b'e' (omega arith, omega arith)
            (omega arith, omega arith) (λ e. omega (arith, e)) refl,
        refl,
        tt,
        tt,
      ),
      tt,
    ),
  ),
  tt,
)

parse_query-print_query_example :
    parse_query (codes "materials") (print_query (codes "Full") (mat_no ∷ []) material)
    ≡ ok (record {
      name = codes "materials";
      operation_name = codes "Full";
      variables = mat_no ∷ [];
      selection = material;
    })
parse_query-print_query_example =
    parse_query-print_query (codes "materials") (codes "Full") (mat_no ∷ []) material
      (text-IsWord b'F' (codes "ul") b'l' (omega arith, omega arith) (omega arith, omega arith)
        refl)
      (mat_no-IsVariable, tt) material-IsPrintable

-- `test_parse_nested_query`
abbrev nested_document : Text
nested_document =
    newline ∷ codes "query Full($mat_no: String!) {"
    ++ newline ∷ codes "  material(mat_no: $mat_no) {"
    ++ newline ∷ codes "    mat_no"
    ++ newline ∷ codes "    sizes { code }"
    ++ newline ∷ codes "  }"
    ++ newline ∷ codes "}"
    ++ newline ∷ []

nested_query :
    parse_query (codes "test") nested_document
    ≡ ok (record {
      name = codes "test";
      operation_name = codes "Full";
      variables = mat_no ∷ [];
      selection = material;
    })
unfolding parse_query strip_prefix trim split_once before_last split
nested_query = refl

-- Fields that stand on one line are one field.
one_line :
    parse_query (codes "test") (codes "{ sizes { code label } }")
    ≡ ok (record {
      name = codes "test";
      operation_name = codes "Query";
      variables = [];
      selection = field (codes "sizes") (field (codes "code label") end true end) false end;
    })
unfolding parse_query strip_prefix trim split_once before_last split
one_line = refl

-- The last parenthesis closes before the first one opens.
closed_first : parse_query (codes "test") (codes "query A)( { a }") ≡ err panics
unfolding parse_query strip_prefix trim split_once before_last split
closed_first = refl

unclosed : parse_query (codes "test") (codes "query A( { a }") ≡ err unclosed_parenthesis
unfolding parse_query strip_prefix trim split_once before_last split
unclosed = refl

no_braces : parse_query (codes "test") (codes "query A") ≡ err no_selection_set
unfolding parse_query strip_prefix trim split_once before_last split
no_braces = refl
