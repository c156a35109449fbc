-- ===== src/Graphql/Executor.antt =====
-- graphql/executor.rs: a named query's selection resolved to a document, level by level.
pub mod Settled
pub mod Transparent
pub mod Batching
pub mod Comes
pub mod Answered
use pg_x.Base.{
  ℕ, suc, ltb, Option, none, some, List, [], ◌∷◌, ◌++◌, Bool, true, false, ◌||◌, if◌then◌else◌, leb,
  length,
}
use pg_x.Map
use pg_x.Map.{Map, text_eq, text_key}
use pg_x.Text.{Text}
use pg_x.Text.Split.{before_last, split_once, split, trim, strip_prefix}
use pg_x.Graphql.Json.{Json, batch_key, get_field, field_key, put_field}
use pg_x.Graphql.Query.{FieldSelections, end, field}
use pg_x.Graphql.Run.{QueryRunner, Run, ◌>>=◌, ◌>>◌, give, lift, beside}
use pg_x.Graphql.Loader
use pg_x.Graphql.Loader.{DataLoader, add_key, get_children}

-- `ResolverConfig` of utils/config.rs, without the connection's name.
pub record ResolverConfig : Type 0 where
  pub sql : Text
  pub param : Option Text
  pub batch_by : Option Text

abbrev pub is_empty : FieldSelections → Bool
is_empty end = true
is_empty (field _ _ _ _) = false

-- `field_name.split('(').next()`
unfoldable pub base_name : Text → Text
base_name name = elim (split_once b'(' name) [ none ↦ name | some (before, _) ↦ before ]

without_dollar : Text → Text
without_dollar val = elim (strip_prefix (b'$' ∷ []) val) [ none ↦ val | some rest ↦ rest ]

find_arg : Text → List Text → Option Text
unfolding without_dollar
find_arg param_name [] = none
find_arg param_name (arg ∷ args) =
    let rest = find_arg param_name args in
    elim (split_once b':' (trim arg)) [
      | none ↦ rest
      | some (name, val) ↦
          if text_eq (trim name) param_name then some (without_dollar (trim val)) else rest
    ]

unfoldable pub extract_arg : Text → Text → Option Text
unfolding find_arg
extract_arg field_expr param_name = elim (split_once b'(' field_expr) [
  | none ↦ none
  | some (_, args) ↦ elim (before_last b')' args) [
    | none ↦ none
    | some args_str ↦ find_arg param_name (split b',' args_str)
  ]
]

abbrev pub is_to_many : ResolverConfig → Bool
is_to_many r = elim r.batch_by [ none ↦ false | some _ ↦ true ]

unfoldable pub or_name : Option Text → Text → Text
or_name none d = d
or_name (some p) d = p

module _ (j : Json) (runner : QueryRunner j) where
  -- The rows of one parent, each resolved by `below`.
  unfoldable pub resolve_rows : (j.Value → Run j j.Value) → List j.Value → Run j (List j.Value)
  resolve_rows below [] = give []
  resolve_rows below (row ∷ rows) = do
    child ← below row
    resolved ← resolve_rows below rows
    give (child ∷ resolved)

  unfoldable pub add_keys : Text → List j.Value → DataLoader j → DataLoader j
  add_keys param_name [] loader = loader
  add_keys param_name (obj ∷ parents) loader =
      add_keys param_name parents
        (elim (get_field j param_name obj) [ none ↦ loader | some key ↦ add_key j key loader ])

  unfoldable pub per_parent :
      (Text → List j.Value)
      → Text
      → (j.Value → Run j j.Value)
      → List j.Value
      → Run j (List (List j.Value))
  per_parent children_of param_name below [] = give []
  per_parent children_of param_name below (obj ∷ parents) = do
    resolved ← resolve_rows below (children_of (field_key j param_name obj))
    others ← per_parent children_of param_name below parents
    give (resolved ∷ others)

  -- `obj.get(param_name).cloned().unwrap_or(Value::Null)`
  unfoldable pub param_value : Text → j.Value → j.Value
  param_value param_name obj = elim (get_field j param_name obj) [
    | none ↦ j.null_value
    | some v ↦ v
  ]

  unfoldable pub each_parent :
      Text → Text → (j.Value → Run j j.Value) → List j.Value → Run j (List (List j.Value))
  each_parent sql param_name below [] = give []
  each_parent sql param_name below (obj ∷ parents) =
      beside
        (do
          rows ← lift (runner.run_rows_array sql (batch_key j (param_value param_name obj) ∷ []))
          resolve_rows below rows)
        (each_parent sql param_name below parents)

  -- `below` resolves the children of a row.
  unfoldable pub resolve_field_for_parents :
      Text → ResolverConfig → List j.Value → (j.Value → Run j j.Value) → Run j (List (List j.Value))
  resolve_field_for_parents field_name resolver parents below =
      let param_name = or_name resolver.param (base_name field_name) in
      elim resolver.batch_by [
        | some batch_by ↦
            Loader.execute j runner
              (add_keys param_name parents (Loader.new j resolver.sql batch_by))
            >>= λ loader. per_parent (get_children j loader) param_name below parents
        | none ↦ each_parent resolver.sql param_name below parents
      ]

  first_or_nil : List (List j.Value) → List j.Value
  first_or_nil [] = []
  first_or_nil (rows ∷ _) = rows

  -- One row of a resolver without `batch_by` stands for itself.
  folded : ResolverConfig → List j.Value → j.Value
  folded resolver (child ∷ []) = if is_to_many resolver then j.array (child ∷ []) else child
  folded resolver children = j.array children

  unfoldable pub apply_results :
      List (Text × ResolverConfig × List (List j.Value)) → j.Value → j.Value
  unfolding first_or_nil folded
  apply_results [] parent = parent
  apply_results ((name, resolver, per) ∷ results) parent =
      apply_results results (put_field j name (folded resolver (first_or_nil per)) parent)

  module _ (resolvers : Map Text ResolverConfig) (max_depth : ℕ) where
    unfoldable pub with_depth :
        ℕ → Run j (List (Text × ResolverConfig × List (List j.Value))) → j.Value → Run j j.Value
    with_depth depth results parent =
        if ltb max_depth depth
        then lift none
        else (results >>= λ rs. give (apply_results rs parent))

    -- A row's own children, whose results for it are given.
    unfoldable pub resolve_child :
        FieldSelections
        → ℕ
        → Run j (List (Text × ResolverConfig × List (List j.Value)))
        → j.Value
        → Run j j.Value
    unfolding with_depth
    resolve_child children depth results row =
        if is_empty children then give row else with_depth depth results row

    -- The siblings' results for one parent. What is selected of a row goes one level deeper.
    unfoldable pub tasks :
        FieldSelections → ℕ → j.Value → Run j (List (Text × ResolverConfig × List (List j.Value)))
    unfolding resolve_child
    tasks end depth parent = give []
    tasks (field name children is_leaf rest) depth parent =
        let others = tasks rest depth parent in
        let below : j.Value → Run j j.Value =
          λ row. resolve_child children (suc depth) (tasks children (suc depth) row) row in
        elim (Map.get (base_name name) resolvers) [
          | none ↦ others
          | some resolver ↦
              if is_leaf || is_empty children
              then others
              else beside
                  (resolve_field_for_parents name resolver (parent ∷ []) below >>= λ per.
                    give (base_name name, resolver, per))
                  others
        ]

    unfoldable pub resolve_children_with_depth : FieldSelections → ℕ → j.Value → Run j j.Value
    unfolding tasks with_depth
    resolve_children_with_depth children depth parent =
        with_depth depth (tasks children depth parent) parent

    unfoldable pub resolve_children : FieldSelections → j.Value → Run j j.Value
    unfolding resolve_children_with_depth
    resolve_children children parent = resolve_children_with_depth children 0 parent

    -- What `resolve_field_for_parents` does with a row, below the depth given.
    unfoldable pub resolve_selected : FieldSelections → ℕ → j.Value → Run j j.Value
    unfolding tasks resolve_child
    resolve_selected children depth row =
        resolve_child children depth (tasks children depth row) row

    unfoldable pub put_children : Text → List j.Value → List (List j.Value) → List j.Value
    put_children name (obj ∷ objs) (children ∷ per) =
        put_field j name (j.array children) obj ∷ put_children name objs per
    put_children name objs per = objs

    unfoldable pub resolve_children_batched : FieldSelections → List j.Value → Run j (List j.Value)
    unfolding resolve_selected put_children
    resolve_children_batched end parents = give parents
    resolve_children_batched (field name children is_leaf rest) parents =
        let skipped = resolve_children_batched rest parents in
        elim (Map.get (base_name name) resolvers) [
          | none ↦ skipped
          | some resolver ↦
              if is_leaf || is_empty children
              then skipped
              else (resolve_field_for_parents name resolver parents (resolve_selected children 0)
                  >>= λ per.
                      resolve_children_batched rest (put_children (base_name name) parents per))
        ]

    unfoldable pub root_param : Text → ResolverConfig → Map Text j.Value → Option j.Value
    root_param field_name resolver variables = elim resolver.param [
      | none ↦ some j.null_value
      | some param_name ↦ elim (Map.get param_name variables) [
        | some v ↦ some v
        | none ↦ elim (extract_arg field_name param_name) [
          | none ↦ none
          | some var_name ↦ Map.get var_name variables
        ]
      ]
    ]

    -- All the values so far are resolved by a root field's children, those of earlier fields too.
    resolve_roots : FieldSelections → List j.Value → Run j (List j.Value)
    unfolding resolve_children resolve_children_batched
    resolve_roots children root_values =
        if is_empty children
        then give root_values
        else if ltb 1 (length root_values)
        then resolve_children_batched children root_values
        else resolve_rows (resolve_children children) root_values

    unfoldable pub root_fields :
        FieldSelections → Map Text j.Value → List j.Value → Run j (List j.Value)
    unfolding root_param resolve_roots
    root_fields end variables root_values = give root_values
    root_fields (field name children is_leaf rest) variables root_values = do
      resolver ← lift (Map.get (base_name name) resolvers)
      value ← lift (root_param name resolver variables)
      rows ← lift (runner.run_rows resolver.sql (batch_key j value ∷ []))
      resolved ← resolve_roots children (root_values ++ rows)
      root_fields rest variables resolved

    document : List j.Value → j.Value
    document (value ∷ []) = value
    document values = j.array values

    unfoldable pub execute : FieldSelections → Map Text j.Value → Run j j.Value
    unfolding root_fields document
    execute selection variables =
        root_fields selection variables [] >>= λ values. give (document values)
