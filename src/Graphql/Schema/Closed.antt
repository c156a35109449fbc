-- ===== src/Graphql/Schema/Closed.antt =====
-- The registry that graphql/schema.rs builds from the files of its directory.
use pg_x.Base.{suc, ◌≡◌, refl, inl, inr, Bool-cases, List, [], ◌∷◌, ◌++◌, Result, true, All, length}
use pg_x.Map
use pg_x.Map.{Map, text_key, text_eq, text_eq_iff}
use pg_x.Text.{Text}
use pg_x.Text.Split.{trim}
use pg_x.Text.Ends.{lines, starts_with}
use pg_x.Graphql.TypeBody.{ObjectType, SchemaError, one_of}
use pg_x.Graphql.Schema.{
  SchemaRegistry, names_of_line, names_of_lines, collect_type_names, type_name_of, types_of,
  insert_types, parse_sdl_with_types, parse_sdls, global_type_names, load_from_dir,
}
use pg_x.Graphql.Schema.Names.{
  one_of-append_left, one_of-append_right, begun, begun_by, begun_by-append_left,
  begun_by-append_right,
}
use pg_x.Graphql.Schema.Defined.{Means, Means->>=, IsDefined, IsNamed, types_of-AreDefined}

unfoldable pub lines_of : List Text → List Text
lines_of [] = []
lines_of (sdl ∷ sdls) = lines sdl ++ lines_of sdls

module _ (names : List Text) where
  -- Every type stands under its own name.
  abbrev pub IsClosed : Map Text ObjectType → Type 0
  IsClosed types = All (λ e. (e.1.name ≡ e.0) × IsDefined names e.1) types

  insert-IsClosed :
      (t : ObjectType) (types : Map Text ObjectType)
      → IsDefined names t
      → IsClosed types
      → IsClosed (Map.insert t.name t types)
  unfolding Map.insert
  insert-IsClosed t [] d h = ((refl, d), tt)
  insert-IsClosed t ((k, u) ∷ types) d (e, h) = elim (Bool-cases (text_eq k t.name)) [
    | inl same ↦ rw (Map.insert, same) ((refl, d), h)
    | inr other ↦ rw (Map.insert, other) (e, insert-IsClosed t types d h)
  ]

  insert_types-IsClosed :
      (ts : List ObjectType) (types : Map Text ObjectType)
      → All (IsDefined names) ts
      → IsClosed types
      → IsClosed (insert_types ts types)
  unfolding insert_types
  insert_types-IsClosed [] types d h = h
  insert_types-IsClosed (t ∷ ts) types (d, ds) h =
      insert_types-IsClosed ts (Map.insert t.name t types) ds (insert-IsClosed t types d h)

  abbrev HasClosed : SchemaRegistry → Type 0
  HasClosed registry = IsClosed registry.types

module _ (names all_lines : List Text) where
  -- The names and the first words of the lines are among those of all files.
  abbrev Covers : List Text → List Text → Type 0
  Covers known ls =
      ((s : Text) → one_of known s ≡ true → one_of names s ≡ true)
      × ((w : Text) → begun_by ls w ≡ true → begun_by all_lines w ≡ true)

  begun_by-cons :
      (line : Text) (ls : List Text) (w : Text)
      → starts_with w (trim line) ≡ true
      → begun_by (line ∷ ls) w ≡ true
  unfolding begun_by
  begun_by-cons line ls w h = rw (begun_by, h) refl

  lines-IsNamed :
      (ls : List Text) → Covers (names_of_lines ls) ls → All (IsNamed names all_lines) ls
  unfolding names_of_lines
  lines-IsNamed [] h = tt
  lines-IsNamed (line ∷ ls) (n, b) =
      let first = names_of_line (suc (length (trim line))) (trim line) in
      let own = type_name_of (trim line) in
      (
        (
          λ begins.
              n own (one_of-append_left first (names_of_lines ls) own (begun (trim line) begins)),
          λ w begins. b w (begun_by-cons line ls w begins),
        ),
        lines-IsNamed ls (
          λ s e. n s (one_of-append_right first (names_of_lines ls) s e),
          λ w e. b w (begun_by-append_right (line ∷ []) ls w e),
        ),
      )

  abbrev pub LoadMeans : Result SchemaError SchemaRegistry → Type 0
  LoadMeans = Means names all_lines (HasClosed names)

  parse_sdl_with_types-LoadMeans :
      (sdl : Text) (registry : SchemaRegistry)
      → Covers (collect_type_names sdl) (lines sdl)
      → HasClosed names registry
      → LoadMeans (parse_sdl_with_types sdl names registry)
  unfolding parse_sdl_with_types collect_type_names
  parse_sdl_with_types-LoadMeans sdl registry c h =
      Means->>= names all_lines (All (IsDefined names)) (HasClosed names)
        (types_of names (lines sdl)) _
        (types_of-AreDefined names all_lines (lines sdl) (lines-IsNamed (lines sdl) c)).0
        (λ ts d. insert_types-IsClosed names ts registry.types d h)

  parse_sdls-LoadMeans :
      (sdls : List Text) (registry : SchemaRegistry)
      → Covers (global_type_names sdls) (lines_of sdls)
      → HasClosed names registry
      → LoadMeans (parse_sdls sdls names registry)
  unfolding parse_sdls global_type_names lines_of
  parse_sdls-LoadMeans [] registry c h = h
  parse_sdls-LoadMeans (sdl ∷ sdls) registry (n, b) h =
      let first = collect_type_names sdl in
      let others = global_type_names sdls in
      Means->>= names all_lines (HasClosed names) (HasClosed names)
        (parse_sdl_with_types sdl names registry) _
        (parse_sdl_with_types-LoadMeans sdl registry
          (
            λ s e. n s (one_of-append_left first others s e),
            λ w e. b w (begun_by-append_left (lines sdl) (lines_of sdls) w e),
          )
          h)
        (λ read k.
          parse_sdls-LoadMeans sdls read
            (
              λ s e. n s (one_of-append_right first others s e),
              λ w e. b w (begun_by-append_right (lines sdl) (lines_of sdls) w e),
            )
            k)

-- The loading of a directory gives a registry or an error. In the registry every type stands under
-- its own name; these names, and the types that relations lead to, are among the type names of the
-- files, and no relation leads to a scalar. The error is an unsupported word that begins a line of a
-- file, or a type that is neither a scalar nor among the type names.
pub load_from_dir-LoadMeans :
    (sdls : List Text) → LoadMeans (global_type_names sdls) (lines_of sdls) (load_from_dir sdls)
unfolding load_from_dir
load_from_dir-LoadMeans sdls =
    parse_sdls-LoadMeans (global_type_names sdls) (lines_of sdls) sdls (record { types = [] })
      (λ s e. e, λ w e. e) tt
