-- ===== src/Graphql/Executor/Answered.antt =====
-- The queries of graphql/executor.rs that come to a document.
use pg_x.Base.{
  ℕ, suc, ltb, le→ltb_false, ◌+◌, ◌≤◌, ◌≡◌, ◌≢◌, inl, inr, Bool-cases, Option-cases, none, some,
  List, [], ◌∷◌, ◌++◌, Bool, false, ◌||◌, if◌then◌else◌, length, arith,
}
use pg_x.Map
use pg_x.Map.{Map, text_key}
use pg_x.Text.{Text}
use pg_x.Graphql.Json.{Json, batch_key}
use pg_x.Graphql.Run.{QueryRunner, State, Run, lift}
use pg_x.Graphql.Executor.{
  ResolverConfig, is_empty, base_name, apply_results, with_depth, resolve_child, tasks,
  resolve_children_with_depth, resolve_children, resolve_selected, put_children,
  resolve_children_batched, root_param, resolve_roots, root_fields, document, execute,
}
use pg_x.Graphql.Query.{FieldSelections, end, field}
use pg_x.Graphql.Executor.Comes.{
  Comes, bind-Comes, there-Comes, give-Comes, beside-Comes, if-Comes, IsUp, resolve_rows-Comes,
  resolve_field-Comes,
}

-- How deep the selections go.
unfoldable pub height : FieldSelections → ℕ
height end = 0
height (field name children is_leaf rest) =
    let below = suc (height children) in
    let beside_it = height rest in if ltb below beside_it then beside_it else below

module _ (j : Json) (runner : QueryRunner j) where
  module _ (resolvers : Map Text ResolverConfig) (max_depth : ℕ) where
    -- Every root field has a resolver and a value for its parameter.
    abbrev pub Rooted : FieldSelections → Map Text j.Value → Type 0
    Rooted end variables = Unit {0}
    Rooted (field name children is_leaf rest) variables =
        ((resolver : ResolverConfig) × (Map.get (base_name name) resolvers ≡ some resolver)
          × (root_param j runner resolvers max_depth name resolver variables ≢ none))
        × Rooted rest variables

  module _ (resolvers : Map Text ResolverConfig) (max_depth : ℕ) (up : IsUp j runner) where
    with_depth-Comes :
        (depth : ℕ) (results : Run j (List (Text × ResolverConfig × List (List j.Value))))
        (parent : j.Value)
        → depth ≤ max_depth
        → Comes j results
        → Comes j (with_depth j runner resolvers max_depth depth results parent)
    unfolding with_depth
    with_depth-Comes depth results parent le h =
        rw (le→ltb_false max_depth depth le)
          (bind-Comes j results _ h (λ rs. give-Comes j (apply_results j runner rs parent)))

    height_pos : (children : FieldSelections) → is_empty children ≡ false → 1 ≤ height children
    unfolding height
    height_pos end e = cc
    height_pos (field name children is_leaf rest) e = ground arith

    resolve_child-Comes :
        (children : FieldSelections) (depth : ℕ)
        (results : Run j (List (Text × ResolverConfig × List (List j.Value)))) (row : j.Value)
        → depth + height children ≤ suc max_depth
        → Comes j results
        → Comes j (resolve_child j runner resolvers max_depth children depth results row)
    unfolding resolve_child
    resolve_child-Comes children depth results row le h = elim (Bool-cases (is_empty children)) [
      | inl leaf ↦ rw leaf (give-Comes j row)
      | inr inner ↦
          let deep = height_pos children inner in
          rw inner (with_depth-Comes depth results row (omega arith) h)
    ]

    height-field :
        (name : Text) (children : FieldSelections) (is_leaf : Bool) (rest : FieldSelections)
        → (suc (height children) ≤ height (field name children is_leaf rest))
          × (height rest ≤ height (field name children is_leaf rest))
    unfolding height
    height-field name children is_leaf rest = ground arith

    tasks-Comes :
        (fields : FieldSelections) (depth : ℕ) (parent : j.Value)
        → depth + height fields ≤ suc max_depth
        → Comes j (tasks j runner resolvers max_depth fields depth parent)
    unfolding tasks
    tasks-Comes end depth parent le = give-Comes j []
    tasks-Comes (field name children is_leaf rest) depth parent le =
        let (deeper, wider) = height-field name children is_leaf rest in
        let others = tasks-Comes rest depth parent (omega arith) in
        elim (Option-cases (Map.get (base_name name) resolvers)) [
          | inl absent ↦ rw (tasks, absent) others
          | inr (resolver, there) ↦
              rw (tasks, there)
                (if-Comes j (is_leaf || is_empty children) _ _ others (
                  beside-Comes j _ _
                    (bind-Comes j _ _
                      (resolve_field-Comes j runner _
                        (λ row.
                          resolve_child-Comes children (suc depth) _ row (omega arith)
                            (tasks-Comes children (suc depth) row (omega arith)))
                        up name resolver (parent ∷ []))
                      (λ per. give-Comes j (base_name name, resolver, per)))
                    others))
        ]

    resolve_selected-Comes :
        (children : FieldSelections) (row : j.Value)
        → height children ≤ suc max_depth
        → Comes j (resolve_selected j runner resolvers max_depth children 0 row)
    unfolding resolve_selected
    resolve_selected-Comes children row le =
        resolve_child-Comes children 0 _ row (omega arith)
          (tasks-Comes children 0 row (omega arith))

    resolve_children-Comes :
        (children : FieldSelections) (parent : j.Value)
        → height children ≤ suc max_depth
        → Comes j (resolve_children j runner resolvers max_depth children parent)
    unfolding resolve_children resolve_children_with_depth
    resolve_children-Comes children parent le =
        with_depth-Comes 0 _ parent (omega arith) (tasks-Comes children 0 parent (omega arith))

    resolve_children_batched-Comes :
        (fields : FieldSelections) (parents : List j.Value)
        → height fields ≤ suc max_depth
        → Comes j (resolve_children_batched j runner resolvers max_depth fields parents)
    unfolding resolve_children_batched
    resolve_children_batched-Comes end parents le = give-Comes j parents
    resolve_children_batched-Comes (field name children is_leaf rest) parents le =
        let (deeper, wider) = height-field name children is_leaf rest in
        elim (Option-cases (Map.get (base_name name) resolvers)) [
          | inl absent ↦
              rw (resolve_children_batched, absent)
                (resolve_children_batched-Comes rest parents (omega arith))
          | inr (resolver, there) ↦
              rw (resolve_children_batched, there)
                (if-Comes j (is_leaf || is_empty children) _ _
                  (resolve_children_batched-Comes rest parents (omega arith))
                  (bind-Comes j _ _
                    (resolve_field-Comes j runner _
                      (λ row. resolve_selected-Comes children row (omega arith)) up name resolver
                      parents)
                    (λ per.
                      resolve_children_batched-Comes rest
                        (put_children j runner resolvers max_depth (base_name name) parents per)
                        (omega arith))))
        ]

    resolve_roots-Comes :
        (children : FieldSelections) (values : List j.Value)
        → height children ≤ suc max_depth
        → Comes j (resolve_roots j runner resolvers max_depth children values)
    unfolding resolve_roots
    resolve_roots-Comes children values le =
        if-Comes j (is_empty children) _ _ (give-Comes j values) (
          if-Comes j (ltb 1 (length values)) _ _ (resolve_children_batched-Comes children values le)
            (resolve_rows-Comes j runner _ (λ row. resolve_children-Comes children row le) values))

    root_fields-Comes :
        (fields : FieldSelections) (variables : Map Text j.Value) (values : List j.Value)
        → height fields ≤ suc (suc max_depth)
        → Rooted resolvers max_depth fields variables
        → Comes j (root_fields j runner resolvers max_depth fields variables values)
    unfolding root_fields
    root_fields-Comes end variables values le h = give-Comes j values
    root_fields-Comes (field name children is_leaf rest) variables values le
          ((resolver, there, given), h) =
        let (deeper, wider) = height-field name children is_leaf rest in
        there-Comes j (Map.get (base_name name) resolvers) _ resolver there (
          bind-Comes j (lift (root_param j runner resolvers max_depth name resolver variables)) _
            (λ s. given)
            (λ value.
              bind-Comes j (lift (runner.run_rows resolver.sql (batch_key j value ∷ []))) _
                (λ s. up.rows _ _)
                (λ rows.
                  bind-Comes j _ _ (resolve_roots-Comes children (values ++ rows) (omega arith))
                    (λ resolved. root_fields-Comes rest variables resolved (omega arith) h))))

    -- A selection that is at most two levels deeper than the maximal depth comes to a document, whatever
    -- the rows are and whatever the cache holds, where its root fields have their resolvers and
    -- parameters and no query of the database fails.
    pub execute-ne-none_of_height :
        (selection : FieldSelections) (variables : Map Text j.Value) (s : State j)
        → height selection ≤ suc (suc max_depth)
        → Rooted resolvers max_depth selection variables
        → (execute j runner resolvers max_depth selection variables s).0 ≢ none
    unfolding execute
    execute-ne-none_of_height selection variables s le h =
        bind-Comes j (root_fields j runner resolvers max_depth selection variables []) _
          (root_fields-Comes selection variables [] le h)
          (λ values. give-Comes j (document j runner resolvers max_depth values)) s
