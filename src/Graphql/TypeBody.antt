-- ===== src/Graphql/TypeBody.antt =====
-- graphql/schema.rs: the fields and relations between the braces of a type.
use pg_x.Base.{
  ◌==◌, ◌||◌, none, some, Result, ok, err, ◌>>=◌, List, [], ◌∷◌, ◌++◌, Bool, true, false,
  if◌then◌else◌,
}
use pg_x.Map.{text_key, text_eq}
use pg_x.Text.{Text, codes}
use pg_x.Text.Split.{split_once, trim}
use pg_x.Text.Ends.{
  starts_with, ends_with, trim_start_matches, trim_end_matches, contains_char, lines,
}

pub data ScalarType : Type 0 where
  string int float boolean id : ScalarType

pub record FieldDef : Type 0 where
  pub name : Text
  pub scalar_type : ScalarType

pub record RelationDef : Type 0 where
  pub name : Text
  pub type_name : Text
  pub is_list : Bool

pub record ObjectType : Type 0 where
  pub name : Text
  pub fields : List FieldDef
  pub relations : List RelationDef

pub data SchemaError : Type 0 where
  unsupported : (keyword : Text) → SchemaError
  undefined_list_type unknown_type : (type_name field_name : Text) → SchemaError

abbrev pub type_keyword : Text
type_keyword = codes "type "

-- `contains` of a list or a set of names
unfoldable pub one_of : List Text → Text → Bool
one_of [] s = false
one_of (n ∷ names) s = let rest = one_of names s in if text_eq n s then true else rest

abbrev scalars : List Text
scalars = codes "String" ∷ codes "Int" ∷ codes "Float" ∷ codes "Boolean" ∷ codes "ID" ∷ []

unfoldable pub is_scalar : Text → Bool
unfolding one_of
is_scalar s = one_of scalars s

scalar_kind : Text → ScalarType
scalar_kind s =
    if text_eq s (codes "Int")
    then int
    else if text_eq s (codes "Float")
    then float
    else if text_eq s (codes "Boolean")
    then boolean
    else string

-- The blanks that part tokens stand outside brackets.
field_tokens : Bool → Text → Text → List Text
field_tokens in_bracket current [] = elim (trim current) [ [] ↦ [] | c ∷ cs ↦ (c ∷ cs) ∷ [] ]
field_tokens in_bracket current (ch ∷ chars) =
    let opened = field_tokens true (current ++ ch ∷ []) chars in
    let closed = field_tokens false (current ++ ch ∷ []) chars in
    let more = field_tokens in_bracket (current ++ ch ∷ []) chars in
    let others = field_tokens in_bracket [] chars in
    let parted : List Text = elim (trim current) [ [] ↦ others | c ∷ cs ↦ (c ∷ cs) ∷ others ] in
    if ch == b'['
    then opened
    else if ch == b']'
    then closed
    else if ch == b' '
    then (if in_bracket then more else parted)
    else more

-- A name that ends in a colon takes the next token as its type; what has no colon is left out.
merged : List Text → List Text
merged [] = []
merged (t ∷ []) = if contains_char b':' t then t ∷ [] else []
merged (t ∷ u ∷ ts) =
    let behind = merged ts in
    let next = merged (u ∷ ts) in
    if ends_with b':' t
    then (t ++ b' ' ∷ u) ∷ behind
    else if contains_char b':' t
    then t ∷ next
    else next

tokenize_fields : Text → List Text
unfolding field_tokens merged ends_with contains_char
tokenize_fields line = merged (field_tokens false [] line)

-- A token that has no colon is left out.
pub data Member : Type 0 where
  left_out : Member
  scalar : FieldDef → Member
  relation : RelationDef → Member

scalar_member : Text → Text → Member
unfolding scalar_kind
scalar_member name base_type = scalar (record { name = name; scalar_type = scalar_kind base_type })

unfoldable pub list_member : List Text → Text → Text → Result SchemaError Member
unfolding is_scalar one_of scalar_member
list_member type_names name inner =
    if is_scalar inner
    then ok (scalar_member name inner)
    else if one_of type_names inner
    then ok (relation (record { name = name; type_name = inner; is_list = true }))
    else err (undefined_list_type inner name)

unfoldable pub member_of_type : List Text → Text → Text → Result SchemaError Member
unfolding starts_with trim_start_matches trim_end_matches is_scalar one_of scalar_member list_member
member_of_type type_names name base_type =
    if starts_with (b'[' ∷ []) base_type
    then list_member type_names name
        (trim_end_matches b'!' (trim_end_matches b']' (trim_start_matches b'[' base_type)))
    else if is_scalar base_type
    then ok (scalar_member name base_type)
    else if one_of type_names base_type
    then ok (relation (record { name = name; type_name = base_type; is_list = false }))
    else err (unknown_type base_type name)

unfoldable pub member : List Text → Text → Result SchemaError Member
unfolding member_of_type
member type_names token = elim (split_once b':' token) [
  | none ↦ ok left_out
  | some (name, type_str) ↦
      member_of_type type_names (trim name) (trim_end_matches b'!' (trim type_str))
]

abbrev pub Members : Type 0
Members = List FieldDef × List RelationDef

unfoldable pub with_member : Member → Members → Members
with_member left_out (fields, relations) = (fields, relations)
with_member (scalar f) (fields, relations) = (f ∷ fields, relations)
with_member (relation r) (fields, relations) = (fields, r ∷ relations)

unfoldable pub members : List Text → List Text → Result SchemaError Members
unfolding member with_member
members type_names [] = ok ([], [])
members type_names (token ∷ tokens) = do
  m ← member type_names token
  behind ← members type_names tokens
  ok (with_member m behind)

is_skipped : Text → Bool
unfolding starts_with
is_skipped [] = true
is_skipped (c ∷ cs) =
    c == b'#' || (text_eq (c ∷ cs) (b'}' ∷ []) || starts_with type_keyword (c ∷ cs))

unfoldable pub body_tokens : List Text → List Text
unfolding is_skipped tokenize_fields
body_tokens [] = []
body_tokens (line ∷ rest) =
    let behind = body_tokens rest in
    let t = trim line in if is_skipped t then behind else tokenize_fields t ++ behind

unfoldable pub parse_fields_and_relations : Text → List Text → Result SchemaError Members
unfolding members body_tokens lines
parse_fields_and_relations body type_names = members type_names (body_tokens (lines body))
