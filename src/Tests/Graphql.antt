-- ===== src/Tests/Graphql.antt =====
-- Runs of the document composition of src/graphql.
use pg_x.Base.{◌≤◌, ◌≢◌, ◌≡◌, refl, Option, none, some, List, [], ◌∷◌, ◌+◌, true, false, arith}
use pg_x.Map
use pg_x.Map.{Map, text_key}
use pg_x.Text.{Text, codes}
use pg_x.Graphql.Json.{Json, Shape, field_key}
use pg_x.Graphql.Cache.{GlobalDataCache}
use pg_x.Graphql.Run.{QueryRunner, State}
use pg_x.Graphql.Loader.Rows.{any_of}
use pg_x.Graphql.Loader.Shared.{Fresh}
use pg_x.Graphql.Executor.{
  root_param, or_name, base_name, ResolverConfig, resolve_field_for_parents, resolve_selected,
  execute, extract_arg,
}
use pg_x.Graphql.Query.{FieldSelections, end, field}
use pg_x.Graphql.Executor.Transparent.{Answers, Answers-cons, execute-same}
use pg_x.Graphql.Executor.Answered.{height, Rooted, execute-ne-none_of_height}
use pg_x.Graphql.Executor.Batching.{HaveKey, resolve_field-batching}

mutual
  data Doc : Type 0 where
    nothing : Doc
    str : Text → Doc
    list : Docs → Doc
    obj : Entries → Doc

  data Docs : Type 0 where
    none_left : Docs
    more : Doc → Docs → Docs

  data Entries : Type 0 where
    done : Entries
    entry : Text → Doc → Entries → Entries

abbrev docs : List Doc → Docs
docs [] = none_left
docs (d ∷ ds) = more d (docs ds)

abbrev entries_of : Map Text Doc → Entries
entries_of [] = done
entries_of ((k, v) ∷ m) = entry k v (entries_of m)

abbrev map_of : Entries → Map Text Doc
map_of done = []
map_of (entry k v es) = (k, v) ∷ map_of es

abbrev shape_of : Doc → Shape
shape_of nothing = Shape.null
shape_of (str s) = Shape.text s
shape_of (list ds) = Shape.other []
shape_of (obj es) = Shape.other []

abbrev entries : Doc → Option (Map Text Doc)
entries (obj es) = some (map_of es)
entries _ = none

abbrev json : Json
json = record {
  Value = Doc;
  shape = shape_of;
  null_value = nothing;
  array = λ ds. list (docs ds);
  object = λ m. obj (entries_of m);
  entries = entries;
}

abbrev material : Text → Doc
material key = obj (entry (codes "mat_no") (str key) done)

abbrev size : Text → Text → Doc
size key code = obj (entry (codes "mat_no") (str key) (entry (codes "size_code") (str code) done))

abbrev sizes_table : List Doc
sizes_table =
    size (codes "1") (codes "S") ∷ size (codes "2") (codes "M") ∷ size (codes "2") (codes "L") ∷ []

-- Every array query goes to the sizes.
abbrev runner : QueryRunner json
runner = record {
  run_rows = λ sql params. some (material (codes "1") ∷ material (codes "2") ∷ []);
  run_rows_array = λ sql keys. some (any_of json (codes "mat_no") keys sizes_table);
  later = λ now. now + 1;
}

abbrev materials : ResolverConfig
materials = record { sql = codes "m"; param = none; batch_by = none }

abbrev sizes : Option Text → ResolverConfig
sizes batch_by = record { sql = codes "s"; param = some (codes "mat_no"); batch_by = batch_by }

abbrev resolvers : Map Text ResolverConfig
resolvers = (codes "materials", materials) ∷ (codes "sizes", sizes (some (codes "mat_no"))) ∷ []

abbrev size_codes : FieldSelections
size_codes = field (codes "size_code") end true end

abbrev selection : FieldSelections
selection =
    field (codes "materials")
      (field (codes "mat_no") end true (field (codes "sizes") size_codes false end)) false end

abbrev bare : State json
bare = record { global_cache = none; now = 0 }

abbrev cached : State json
cached = record { global_cache = some (record { inner = []; ttl = 60 }); now = 0 }

abbrev row : Text → List Doc → Doc
row key kids =
    obj (entry (codes "mat_no") (str key) (entry (codes "sizes") (list (docs kids)) done))

-- The documents of the source's own test.
two_materials :
    (execute json runner resolvers 10 selection [] cached).0
    ≡ some (
        list (
          docs (
            row (codes "1") (size (codes "1") (codes "S") ∷ [])
            ∷ row (codes "2") (size (codes "2") (codes "M") ∷ size (codes "2") (codes "L") ∷ [])
            ∷ [])))
unfolding execute pg_x.Graphql.Run.◌>>=◌ pg_x.Graphql.Run.beside Map.get Map.insert
    pg_x.Graphql.Executor.base_name pg_x.Graphql.Executor.or_name pg_x.Text.Split.split_once
    resolve_field_for_parents pg_x.Graphql.Loader.execute pg_x.Graphql.Loader.new
    pg_x.Graphql.Loader.add_key pg_x.Graphql.Loader.unique_onto pg_x.Graphql.Loader.group
    pg_x.Graphql.Loader.get_children pg_x.Graphql.Executor.add_keys pg_x.Graphql.Executor.per_parent
    pg_x.Graphql.Executor.resolve_rows pg_x.Graphql.Executor.resolve_selected
    pg_x.Graphql.Executor.resolve_child pg_x.Graphql.Executor.resolve_children_batched
    pg_x.Graphql.Executor.with_depth pg_x.Graphql.Executor.tasks pg_x.Graphql.Executor.apply_results
    pg_x.Graphql.Executor.put_children pg_x.Graphql.Json.get_field pg_x.Graphql.Json.put_field
    pg_x.Graphql.Json.field_key pg_x.Graphql.Json.batch_key any_of pg_x.Graphql.Cache.get
    pg_x.Graphql.Cache.insert
two_materials = refl

answers : Answers json runner resolvers
unfolding Map.get
answers =
    Answers-cons json runner (codes "materials") materials
      ((codes "sizes", sizes (some (codes "mat_no"))) ∷ []) tt
      (Answers-cons json runner (codes "sizes") (sizes (some (codes "mat_no"))) []
        (sizes_table, λ keys. refl) (λ name resolver e. absurd (cc e)))

empty-Fresh : Fresh json runner cached
unfolding Map.get
empty-Fresh sql batch_by found e k rows e' = absurd (cc e)

have_key :
    HaveKey json runner
      (or_name (some (codes "mat_no")) (base_name (codes "sizes")))
      (material (codes "1") ∷ material (codes "2") ∷ [])
unfolding Map.get pg_x.Graphql.Json.get_field or_name
have_key = (λ e. cc e, (λ e. cc e, tt))

execute-same_example :
    ((execute json runner resolvers 10 selection [] cached).0
      ≡ (execute json runner resolvers 10 selection [] bare).0)
    × Fresh json runner (execute json runner resolvers 10 selection [] cached).1
execute-same_example =
    execute-same json runner resolvers 10 answers selection [] cached bare empty-Fresh tt

resolve_field-batching_example :
    let below = resolve_selected json runner resolvers 10 size_codes 0 in
    let parents = material (codes "1") ∷ material (codes "2") ∷ [] in
    (resolve_field_for_parents json runner
      (codes "sizes")
      (sizes (some (codes "mat_no")))
      parents
      below
      cached).0
    ≡ (resolve_field_for_parents json runner (codes "sizes") (sizes none) parents below bare).0
resolve_field-batching_example =
    resolve_field-batching json runner resolvers 10 (codes "sizes") (codes "s") (codes "mat_no")
      (some (codes "mat_no")) sizes_table size_codes 0
      (material (codes "1") ∷ material (codes "2") ∷ []) cached bare answers (λ keys. refl) have_key
      empty-Fresh tt

selection_le : height selection ≤ 12
unfolding height
selection_le = omega arith

rooted : Rooted json runner resolvers 10 selection []
unfolding Map.get base_name pg_x.Text.Split.split_once root_param
rooted = ((materials, refl, λ e. cc e), tt)

execute-ne-none_of_height_example : (execute json runner resolvers 10 selection [] cached).0 ≢ none
execute-ne-none_of_height_example =
    execute-ne-none_of_height json runner resolvers 10
      (record { rows = λ sql params e. cc e; array = λ sql keys e. cc e }) selection [] cached
      selection_le rooted

-- The children of a second root field are put on the rows of the first too.
two_roots :
    (execute json runner
      ((codes "others", materials) ∷ resolvers)
      10
      (field
        (codes "materials")
        end
        false
        (field (codes "others") (field (codes "sizes") size_codes false end) false end))
      []
      bare).0
    ≡ some (
        list (
          docs (
            row (codes "1") (size (codes "1") (codes "S") ∷ [])
            ∷ row (codes "2") (size (codes "2") (codes "M") ∷ size (codes "2") (codes "L") ∷ [])
            ∷ row (codes "1") (size (codes "1") (codes "S") ∷ [])
            ∷ row (codes "2") (size (codes "2") (codes "M") ∷ size (codes "2") (codes "L") ∷ [])
            ∷ [])))
unfolding execute pg_x.Graphql.Run.◌>>=◌ pg_x.Graphql.Run.beside Map.get Map.insert
    pg_x.Graphql.Executor.base_name pg_x.Graphql.Executor.or_name pg_x.Text.Split.split_once
    resolve_field_for_parents pg_x.Graphql.Loader.execute pg_x.Graphql.Loader.new
    pg_x.Graphql.Loader.add_key pg_x.Graphql.Loader.unique_onto pg_x.Graphql.Loader.group
    pg_x.Graphql.Loader.get_children pg_x.Graphql.Executor.add_keys pg_x.Graphql.Executor.per_parent
    pg_x.Graphql.Executor.resolve_rows pg_x.Graphql.Executor.resolve_selected
    pg_x.Graphql.Executor.resolve_child pg_x.Graphql.Executor.resolve_children_batched
    pg_x.Graphql.Executor.with_depth pg_x.Graphql.Executor.tasks pg_x.Graphql.Executor.apply_results
    pg_x.Graphql.Executor.put_children pg_x.Graphql.Json.get_field pg_x.Graphql.Json.put_field
    pg_x.Graphql.Json.field_key pg_x.Graphql.Json.batch_key any_of pg_x.Graphql.Cache.get
    pg_x.Graphql.Cache.insert
two_roots = refl
