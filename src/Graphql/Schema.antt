-- ===== src/Graphql/Schema.antt =====
-- graphql/schema.rs: the object types that the schema files define.
pub mod Names
pub mod Defined
pub mod Closed
use pg_x.Base.{
  ℕ, zero, suc, ◌+◌, ◌-◌, ◌==◌, ◌||◌, Option, none, some, Result, ok, err, ◌>>=◌, List, [], ◌∷◌,
  ◌++◌, Bool, true, false, if◌then◌else◌, length,
}
use pg_x.Map
use pg_x.Map.{Map, text_key, text_eq}
use pg_x.Text.{Text, codes}
use pg_x.Text.Split.{split_once, strip_prefix, trim, trim_start}
use pg_x.Text.Ends.{
  starts_with, ends_with, trim_start_matches, trim_end_matches, contains_char, lines,
}
use pg_x.Graphql.Query.{newline, until_close}
use pg_x.Graphql.TypeBody.{
  FieldDef, RelationDef, ObjectType, SchemaError, unsupported, type_keyword, one_of, Members,
  parse_fields_and_relations,
}

pub record SchemaRegistry : Type 0 where
  pub types : Map Text ObjectType

abbrev pub unsupported_keywords : List Text
unsupported_keywords =
    codes "interface "
    ∷ codes "union "
    ∷ codes "enum "
    ∷ codes "input "
    ∷ codes "directive "
    ∷ codes "extend "
    ∷ codes "scalar "
    ∷ codes "fragment "
    ∷ []

-- What stands before the first brace, or all of it: `s.split('{').next()`.
unfoldable pub before_brace : Text → Text
unfolding split_once
before_brace s = elim (split_once b'{' s) [ none ↦ s | some (before, _) ↦ before ]

-- The types of one line. Each takes five characters at least.
unfoldable pub names_of_line : ℕ → Text → List Text
unfolding before_brace
names_of_line zero rest = []
names_of_line (suc fuel) rest = elim (strip_prefix type_keyword (trim_start rest)) [
  | none ↦ []
  | some after_type ↦ trim (before_brace after_type) ∷ elim (split_once b'}' after_type) [
    | none ↦ []
    | some (_, behind) ↦ names_of_line fuel behind
  ]
]

unfoldable pub names_of_lines : List Text → List Text
unfolding names_of_line
names_of_lines [] = []
names_of_lines (l ∷ ls) = names_of_line (suc (length (trim l))) (trim l) ++ names_of_lines ls

unfoldable pub collect_type_names : Text → List Text
unfolding names_of_lines
collect_type_names sdl = names_of_lines (lines sdl)

unfoldable pub type_name_of : Text → Text
unfolding strip_prefix before_brace
type_name_of trimmed = elim (strip_prefix type_keyword trimmed) [
  | none ↦ []
  | some s ↦ trim (before_brace s)
]

unfoldable pub inline_body : Text → Text
unfolding split_once until_close
inline_body trimmed = elim (split_once b'{' trimmed) [
  | none ↦ []
  | some (_, after_brace) ↦ until_close 1 after_brace
]

unfoldable pub is_inline : Text → Bool
unfolding contains_char ends_with
is_inline trimmed =
    if contains_char b'{' trimmed then (if ends_with b'{' trimmed then false else true) else false

unfoldable pub keyword_of : List Text → Text → Option Text
unfolding starts_with
keyword_of [] trimmed = none
keyword_of (kw ∷ kws) trimmed =
    let rest = keyword_of kws trimmed in if starts_with kw trimmed then some kw else rest

-- A type with the types behind it.
unfoldable pub with_type :
    List Text
    → Text
    → Text
    → Result SchemaError (List ObjectType)
    → Result SchemaError (List ObjectType)
unfolding parse_fields_and_relations
with_type type_names name body others = do
  (fields, relations) ← parse_fields_and_relations body type_names
  behind ← others
  ok (record { name = name; fields = fields; relations = relations } ∷ behind)

-- The loop over the lines, and the loop inside it over the lines of one type.
unfoldable mutual
  unfolding with_type keyword_of is_inline inline_body type_name_of starts_with contains_char

  pub types_of : List Text → List Text → Result SchemaError (List ObjectType)
  types_of type_names [] = ok []
  types_of type_names (line ∷ rest) =
      let trimmed = trim line in
      let others = types_of type_names rest in
      let block = types_from type_names (type_name_of trimmed) 1 [] rest in
      let inline = with_type type_names (type_name_of trimmed) (inline_body trimmed) others in
      let unread : Result SchemaError (List ObjectType) =
        elim (keyword_of unsupported_keywords trimmed) [
          | none ↦ others
          | some kw ↦ err (unsupported kw)
        ] in
      if starts_with type_keyword trimmed
      then (if is_inline trimmed then inline else block)
      else unread

  pub types_from : List Text → Text → ℕ → Text → List Text → Result SchemaError (List ObjectType)
  types_from type_names name brace_depth body [] = with_type type_names name body (ok [])
  types_from type_names name brace_depth body (l ∷ rest) =
      let t = trim l in
      let opened = (if contains_char b'{' t then brace_depth + 1 else brace_depth) in
      let longer = body ++ (l ++ newline ∷ []) in
      let ended = with_type type_names name body (types_of type_names rest) in
      let higher = types_from type_names name (opened - 1) longer rest in
      let level = types_from type_names name opened longer rest in
      if contains_char b'}' t then (if opened - 1 == 0 then ended else higher) else level

unfoldable pub insert_types : List ObjectType → Map Text ObjectType → Map Text ObjectType
unfolding Map.insert
insert_types [] types = types
insert_types (t ∷ ts) types = insert_types ts (Map.insert t.name t types)

unfoldable pub parse_sdl_with_types :
    Text → List Text → SchemaRegistry → Result SchemaError SchemaRegistry
unfolding types_of insert_types lines
parse_sdl_with_types sdl type_names registry = do
  parsed_types ← types_of type_names (lines sdl)
  ok (record { types = insert_types parsed_types registry.types })

unfoldable pub parse_sdl : Text → SchemaRegistry → Result SchemaError SchemaRegistry
unfolding parse_sdl_with_types collect_type_names
parse_sdl sdl registry = parse_sdl_with_types sdl (collect_type_names sdl) registry

unfoldable pub parse_sdls :
    List Text → List Text → SchemaRegistry → Result SchemaError SchemaRegistry
unfolding parse_sdl_with_types
parse_sdls [] type_names registry = ok registry
parse_sdls (sdl ∷ sdls) type_names registry = do
  read ← parse_sdl_with_types sdl type_names registry
  parse_sdls sdls type_names read

unfoldable pub global_type_names : List Text → List Text
unfolding collect_type_names
global_type_names [] = []
global_type_names (sdl ∷ sdls) = collect_type_names sdl ++ global_type_names sdls

-- What the files of the directory hold, in the order that it gives them in.
unfoldable pub load_from_dir : List Text → Result SchemaError SchemaRegistry
unfolding parse_sdls global_type_names
load_from_dir sdls = parse_sdls sdls (global_type_names sdls) (record { types = [] })
