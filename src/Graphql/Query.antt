-- ===== src/Graphql/Query.antt =====
-- graphql/query.rs: the subset of GraphQL's query documents that pgx reads.
pub mod Print
pub mod Balanced
pub mod RoundTrip
pub mod Header
pub mod Document
pub mod Fuel
use pg_x.Base.{
  ℕ, zero, suc, ltb, ◌+◌, ◌-◌, ◌==◌, ◌||◌, Option, none, some, Result, ok, err, ◌>>=◌, List, [],
  ◌∷◌, ◌++◌, Bool, true, false, if◌then◌else◌, length, take, drop,
}
use mathlib.Core.List.{reverse}
use pg_x.Text.{Text, codes}
use pg_x.Text.Ends.{ends_with, trim_end_matches, contains_char}
use pg_x.Text.Split.{before_last, split_once, split, strip_prefix, trim}

-- `Vec<FieldSelection>`
pub data FieldSelections : Type 0 where
  end : FieldSelections
  field :
      (field_name : Text) (children : FieldSelections) (is_leaf : Bool)
      → FieldSelections
      → FieldSelections

pub record VariableDef : Type 0 where
  pub name : Text
  pub var_type : Text
  pub required : Bool

pub record NamedQuery : Type 0 where
  pub name : Text
  pub operation_name : Text
  pub variables : List VariableDef
  -- the children of the root
  pub selection : FieldSelections

-- `panics` is a slice whose end stands before its start.
pub data QueryError : Type 0 where
  no_selection_set unclosed_parenthesis panics : QueryError

abbrev pub newline : ℕ
newline = 10

-- The text up to the brace that closes the first, `depth` braces being open; all of it where none
-- does.
unfoldable pub until_close : ℕ → Text → Text
until_close depth [] = []
until_close depth (c ∷ cs) =
    let deeper = until_close (depth + 1) cs in
    let level = until_close depth cs in
    let higher = until_close (depth - 1) cs in
    if c == b'{'
    then c ∷ deeper
    else if c == b'}'
    then (if depth == 1 then [] else c ∷ higher)
    else c ∷ level

-- A line of a selection set, put before the fields behind it. `inner` reads the selection set
-- between its braces.
unfoldable pub parse_field_line :
    (Text → FieldSelections) → Text → FieldSelections → FieldSelections
unfolding until_close
parse_field_line inner text rest = elim (trim text) [
  | [] ↦ rest
  | c ∷ cs ↦
      let read : FieldSelections = elim (split_once b'{' (c ∷ cs)) [
        | none ↦ field (c ∷ cs) end true rest
        | some (before, after_open) ↦
            field (trim before) (inner (trim (until_close 1 after_open))) false rest
      ] in
      if c == b'#' then rest else read
]

-- The loop over the characters. `current` holds the line so far, and `depth` its open braces.
unfoldable pub scan : (Text → FieldSelections) → ℕ → Text → Text → FieldSelections
unfolding parse_field_line
scan inner depth current [] = if depth == 0 then parse_field_line inner (trim current) end else end
scan inner depth current (c ∷ cs) =
    let deeper = scan inner (depth + 1) (current ++ c ∷ []) cs in
    let higher = scan inner (depth - 1) (current ++ c ∷ []) cs in
    let line = parse_field_line inner (trim current) (scan inner 0 [] cs) in
    let joined = scan inner depth (current ++ newline ∷ []) cs in
    let more = scan inner depth (current ++ c ∷ []) cs in
    if c == b'{'
    then deeper
    else if c == b'}'
    then (if depth == 0 then parse_field_line inner (trim current) end else higher)
    else if c == newline || c == 0x0d
    then (if depth == 0 then line else joined)
    else more

-- The fuel is for the nesting of selection sets.
unfoldable pub parse_fields : ℕ → Text → FieldSelections
unfolding scan
parse_fields zero content = end
parse_fields (suc fuel) content = scan (parse_fields fuel) 0 [] content

unfoldable pub variable : Text → List VariableDef → List VariableDef
unfolding trim_end_matches ends_with
variable var_def rest = elim (strip_prefix (b'$' ∷ []) (trim var_def)) [
  | none ↦ rest
  | some after_dollar ↦ elim (split_once b':' after_dollar) [
    | none ↦ rest
    | some (name, type_text) ↦
        let var_type = trim type_text in
        record {
          name = trim name;
          var_type = trim_end_matches b'!' var_type;
          required = ends_with b'!' var_type;
        }
        ∷ rest
  ]
]

unfoldable pub variables_of : List Text → List VariableDef
unfolding variable
variables_of [] = []
variables_of (var_def ∷ defs) = variable var_def (variables_of defs)

-- The operation's name and its variables, from what stands between `query` and the first brace. A
-- parenthesis that closes before the first one opens is a slice that ends before it starts.
parse_header : Text → Result QueryError (Text × List VariableDef)
unfolding contains_char variables_of
parse_header header = elim (split_once b'(' header) [
  | none ↦ ok (header, [])
  | some (name_part, behind) ↦ elim (before_last b')' behind) [
    | some vars ↦ ok (trim name_part, variables_of (split b',' vars))
    | none ↦ err (if contains_char b')' name_part then panics else unclosed_parenthesis)
  ]
]

operation : Text → Result QueryError (Text × List VariableDef)
unfolding parse_header
operation content = elim (strip_prefix (codes "query ") content) [
  | none ↦ ok (codes "Query", [])
  | some after_query ↦ elim (split_once b'{' after_query) [
    | none ↦ err no_selection_set
    | some (header, _) ↦ parse_header (trim header)
  ]
]

selected : Text → Result QueryError FieldSelections
selected content = elim (split_once b'{' content) [
  | none ↦ err no_selection_set
  | some (_, selection_content) ↦
      ok (parse_fields (suc (length selection_content)) selection_content)
]

unfoldable pub parse_query : Text → Text → Result QueryError NamedQuery
unfolding operation selected parse_fields
parse_query name text = do
  let content = trim text
  (operation_name, variables) ← operation content
  selection ← selected content
  ok (record {
    name = name;
    operation_name = operation_name;
    variables = variables;
    selection = selection;
  })
