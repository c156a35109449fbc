-- ===== src/Graphql/Query/Document.antt =====
-- Whole query documents that graphql/query.rs reads: the operation, its variables, the selection.
use mathlib.Core.List.{reverse-append, reverse-reverse, append_assoc}
use pg_x.Base.{
  ℕ, suc, ◌<◌, ◌==◌, ◌≡◌, refl, sym, ap, some, ok, List, [], ◌∷◌, ◌++◌, true, All, length,
  length-append, arith,
}
use pg_x.Text.{Text, codes}
use pg_x.Text.Split.{split_once, before_last, strip_prefix, trim}
use pg_x.Text.Split.Found.{split_once_found}
use pg_x.Text.Split.Trimmed.{EndsPlain-append, trim_lem}
use pg_x.Graphql.Query.{
  FieldSelections, VariableDef, parse_header, operation, selected, parse_query,
}
use pg_x.Graphql.Query.Print.{IsPrintable, print}
use pg_x.Graphql.Query.Header.{
  IsWord, IsVariable, print_variables, All-append, NoSign, print_variables_free, no_open_brace,
  no_parenthesis, variables_read,
}
use pg_x.Graphql.Query.RoundTrip.{brace-Ends, parse_fields-print}

abbrev pub print_header : Text → List VariableDef → Text
print_header operation_name vs = operation_name ++ b'(' ∷ (print_variables vs ++ b')' ∷ [])

-- A whole query document.
abbrev pub print_query : Text → List VariableDef → FieldSelections → Text
print_query operation_name vs fields =
    codes "query " ++ (print_header operation_name vs ++ b'{' ∷ (print fields ++ b'}' ∷ []))

before_last-end : (sep : ℕ) (s : Text) → before_last sep (s ++ sep ∷ []) ≡ some s
unfolding before_last split_once
before_last-end sep s =
    let same : (sep == sep) ≡ true = ground arith in
    rw (before_last, reverse-append s (sep ∷ []), same) (ap some (reverse-reverse s))

header_read :
    (operation_name : Text) (vs : List VariableDef)
    → IsWord operation_name
    → All IsVariable vs
    → parse_header (print_header operation_name vs) ≡ ok (operation_name, vs)
unfolding parse_header
header_read operation_name vs o h =
    let parted =
      split_once_found b'(' operation_name (print_variables vs ++ b')' ∷ [])
        (no_parenthesis operation_name o.chars) in
    rw
      (
        parse_header,
        parted,
        before_last-end b')' (print_variables vs),
        variables_read vs h,
        trim_lem operation_name o.starts o.ends,
      )
      refl

header_free :
    (operation_name : Text) (vs : List VariableDef)
    → IsWord operation_name
    → All IsVariable vs
    → All (NoSign b'{') (print_header operation_name vs)
header_free operation_name vs o h =
    All-append (NoSign b'{') operation_name _ (no_open_brace operation_name o.chars) (
      λ e. omega (arith, e),
      All-append (NoSign b'{') (print_variables vs) (b')' ∷ [])
          (print_variables_free b'{' no_open_brace (λ e. omega (arith, e)) (λ e. omega (arith, e))
            (λ e. omega (arith, e)) (λ e. omega (arith, e)) vs h)
          (λ e. omega (arith, e), tt),
    )

trim_header :
    (operation_name : Text) (vs : List VariableDef)
    → IsWord operation_name
    → trim (print_header operation_name vs) ≡ print_header operation_name vs
trim_header operation_name vs o =
    let (c, cs, e, p) = o.starts in
    let args = b'(' ∷ (print_variables vs ++ b')' ∷ []) in
    trim_lem (print_header operation_name vs) (c, cs ++ args, ap (λ u. u ++ args) e, p)
      (EndsPlain-append operation_name args
        (b'(' ∷ print_variables vs, b')', refl, (omega arith, omega arith)))

keyword_free : All (NoSign b'{') (codes "query ")
keyword_free = (
  λ e. omega (arith, e),
  (
    λ e. omega (arith, e),
    (
      λ e. omega (arith, e),
      (λ e. omega (arith, e), (λ e. omega (arith, e), (λ e. omega (arith, e), tt))),
    ),
  ),
)

-- A query document with an operation's name, typed variables and a printed selection set is read back
-- as the query that it was printed from.
pub parse_query-print_query :
    (name operation_name : Text) (vs : List VariableDef) (fields : FieldSelections)
    → IsWord operation_name
    → All IsVariable vs
    → IsPrintable fields
    → parse_query name (print_query operation_name vs fields)
      ≡ ok (record {
        name = name;
        operation_name = operation_name;
        variables = vs;
        selection = fields;
      })
unfolding parse_query operation selected strip_prefix
parse_query-print_query name operation_name vs fields o v h =
    let header = print_header operation_name vs in
    let rest = print fields ++ b'}' ∷ [] in
    let text = print_query operation_name vs fields in
    let free = header_free operation_name vs o v in
    let whole : trim text ≡ text =
      trim_lem text (b'q', _, refl, (omega arith, omega arith))
        (
          codes "query " ++ (header ++ b'{' ∷ print fields),
          b'}',
          ap (λ u. codes "query " ++ u)
              (sym (append_assoc header (b'{' ∷ print fields) (b'}' ∷ []))),
          (omega arith, omega arith),
        ) in
    let after = split_once_found b'{' header rest free in
    let first : split_once b'{' text ≡ some (codes "query " ++ header, rest) =
      split_once_found b'{' (codes "query " ++ header) rest
        (All-append (NoSign b'{') (codes "query ") header keyword_free free) in
    let long : length (print fields) < suc (length rest) =
      (let l = length-append (print fields) (b'}' ∷ []) in omega arith) in
    let read =
      parse_fields-print fields (suc (length rest)) (b'}' ∷ []) h long
        (λ inner. brace-Ends inner []) in
    rw
      (
        parse_query,
        whole,
        operation,
        after,
        trim_header operation_name vs o,
        header_read operation_name vs o v,
        selected,
        first,
        read,
      )
      refl
