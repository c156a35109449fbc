-- ===== src/Tests/Schema.antt =====
-- Schema files that src/graphql/schema.rs reads, its own tests among them.
use pg_x.Base.{◌≡◌, refl, Result, ok, err, List, [], ◌∷◌, ◌++◌, true}
use pg_x.Map
use pg_x.Map.{Map, text_key}
use pg_x.Text.{Text, codes}
use pg_x.Text.Split.{split_once, strip_prefix, trim, trim_start}
use pg_x.Text.Ends.{starts_with, lines}
use pg_x.Graphql.Query.{newline}
use pg_x.Graphql.Schema.Closed.{LoadMeans, lines_of, load_from_dir-LoadMeans}
use pg_x.Graphql.TypeBody.{ObjectType, SchemaError, string, unsupported}
use pg_x.Graphql.Schema.{global_type_names, SchemaRegistry, load_from_dir}

abbrev names_of : Result SchemaError SchemaRegistry → List Text
names_of (ok r) = keys r.types
  where
    keys : Map Text ObjectType → List Text
    keys [] = []
    keys ((k, t) ∷ m) = k ∷ keys m
names_of (err e) = []

abbrev two_types : Text
two_types =
    codes "type Material {"
    ++ newline ∷ codes "  mat_no: String!"
    ++ newline ∷ codes "  sizes: [Size!]!"
    ++ newline ∷ codes "}"
    ++ newline ∷ codes "type Size { code: String! }"
    ++ newline ∷ []

abbrev two_types_registry : SchemaRegistry
two_types_registry = record {
  types =
      (
        codes "Material",
        record {
          name = codes "Material";
          fields = record { name = codes "mat_no"; scalar_type = string } ∷ [];
          relations =
              record { name = codes "sizes"; type_name = codes "Size"; is_list = true } ∷ [];
        },
      )
      ∷ (
        codes "Size",
        record {
          name = codes "Size";
          fields = record { name = codes "code"; scalar_type = string } ∷ [];
          relations = [];
        },
      )
      ∷ [];
}

two_types_read : load_from_dir (two_types ∷ []) ≡ ok two_types_registry
unfolding load_from_dir strip_prefix trim trim_start split_once starts_with lines Map.insert
two_types_read = refl

load_from_dir-LoadMeans_example :
    LoadMeans
      (global_type_names (two_types ∷ []))
      (lines_of (two_types ∷ []))
      (load_from_dir (two_types ∷ []))
load_from_dir-LoadMeans_example = load_from_dir-LoadMeans (two_types ∷ [])

no_enums : load_from_dir (codes "enum E { A }" ∷ []) ≡ err (unsupported (codes "enum "))
unfolding load_from_dir strip_prefix trim trim_start split_once starts_with lines Map.insert
no_enums = refl

-- The second type of a line is known by name, but not registered.
abbrev one_line_sdl : Text
one_line_sdl = codes "type A { b: B! } type B { c: String }"

second_on_line : names_of (load_from_dir (one_line_sdl ∷ [])) ≡ codes "A" ∷ []
unfolding load_from_dir strip_prefix trim trim_start split_once starts_with lines Map.insert
second_on_line = refl

-- A brace on a line of its own takes the types behind it into the first.
abbrev own_line_sdl : Text
own_line_sdl =
    codes "type A"
    ++ newline ∷ codes "{"
    ++ newline ∷ codes "}"
    ++ newline ∷ codes "type B {"
    ++ newline ∷ codes "}"

brace_on_own_line : names_of (load_from_dir (own_line_sdl ∷ [])) ≡ codes "A" ∷ []
unfolding load_from_dir strip_prefix trim trim_start split_once starts_with lines Map.insert
brace_on_own_line = refl
