-- ===== src/Graphql/Executor/Transparent.antt =====
-- The documents of graphql/executor.rs, with and without what the shared cache holds.
use pg_x.Base.{
  ℕ, suc, ltb, ◌≡◌, sym, ◌∙◌, inl, inr, Bool-cases, Option-cases, Option, none, some, List, [], ◌∷◌,
  ◌++◌, Bool, true, false, ◌||◌, if◌then◌else◌, length,
}
use mathlib.Core.Path.{subst}
use pg_x.Map
use pg_x.Map.{Map, text_key}
use pg_x.Text.{Text}
use pg_x.Graphql.Json.{Json, batch_key}
use pg_x.Graphql.Run.{QueryRunner, State, Run, give, lift}
use pg_x.Graphql.Loader.Shared.{Fresh, Batches, children_of}
use pg_x.Graphql.Executor.{
  ResolverConfig, is_empty, base_name, or_name, resolve_field_for_parents, apply_results,
  with_depth, resolve_child, tasks, resolve_children_with_depth, resolve_children, resolve_selected,
  put_children, resolve_children_batched, root_param, resolve_roots, root_fields, document, execute,
}
use pg_x.Graphql.Query.{FieldSelections, end, field}
use pg_x.Graphql.Executor.Settled.{
  Settled, lift-Settled, give-Settled, bind-Settled, beside-Settled, resolve_rows-Settled,
  per_parent-Settled, each_parent-Settled, keys_of, batched-Means,
}

module _ (j : Json) (runner : QueryRunner j) where
  -- A resolver with `batch_by` has a query that answers many keys at once.
  abbrev BatchesBy : Text → Option Text → Type 0
  BatchesBy sql none = Unit {0}
  BatchesBy sql (some column) = (table : List j.Value) × Batches j runner sql column table

  abbrev pub Answers : Map Text ResolverConfig → Type 0
  Answers resolvers =
      (name : Text) (resolver : ResolverConfig)
      → Map.get name resolvers ≡ some resolver
      → BatchesBy resolver.sql resolver.batch_by

  pub Answers-cons :
      (name : Text) (resolver : ResolverConfig) (resolvers : Map Text ResolverConfig)
      → BatchesBy resolver.sql resolver.batch_by
      → Answers resolvers
      → Answers ((name, resolver) ∷ resolvers)
  unfolding Map.get
  Answers-cons name resolver resolvers first rest key found e =
      elim (Bool-cases (text_key.beq name key)) [
        | inl same ↦
            let this : resolver ≡ found = cc (rw same at e) in
            subst (λ (r : ResolverConfig). BatchesBy r.sql r.batch_by) this first
        | inr other ↦ rest key found (rw other at e)
      ]

  pub resolve_field-Settled :
      (name sql : Text) (param batch_by : Option Text) (parents : List j.Value)
      (below : j.Value → Run j j.Value)
      → BatchesBy sql batch_by
      → ((row : j.Value) → Settled j runner (below row))
      → Settled j runner (
          resolve_field_for_parents j runner name
            (record { sql = sql; param = param; batch_by = batch_by })
            parents
            below)
  unfolding resolve_field_for_parents
  resolve_field-Settled name sql param none parents below b h =
      each_parent-Settled j runner below h sql (or_name param (base_name name)) parents
  resolve_field-Settled name sql param (some column) parents below (table, b) h =
      let param_name = or_name param (base_name name) in
      let (o, means) =
        per_parent-Settled j runner below h
          (children_of j runner sql column table b (keys_of j runner param_name parents)) param_name
          parents in
      (o, batched-Means j runner sql column table b param_name below parents o means)

  module _ (resolvers : Map Text ResolverConfig) (max_depth : ℕ) (answers : Answers resolvers) where
    if-Settled :
        {A : Type 0} (b : Bool) (m n : Run j A)
        → Settled j runner m
        → Settled j runner n
        → Settled j runner (if b then m else n)
    if-Settled true m n h k = h
    if-Settled false m n h k = k

    with_depth-Settled :
        (depth : ℕ) (results : Run j (List (Text × ResolverConfig × List (List j.Value))))
        (parent : j.Value)
        → Settled j runner results
        → Settled j runner (with_depth j runner resolvers max_depth depth results parent)
    unfolding with_depth
    with_depth-Settled depth results parent h =
        if-Settled (ltb max_depth depth) (lift none) _ (lift-Settled j runner none) (
          bind-Settled j runner results _ h
            (λ rs. give-Settled j runner (apply_results j runner rs parent)))

    resolve_child-Settled :
        (children : FieldSelections) (depth : ℕ)
        (results : Run j (List (Text × ResolverConfig × List (List j.Value)))) (row : j.Value)
        → Settled j runner results
        → Settled j runner (resolve_child j runner resolvers max_depth children depth results row)
    unfolding resolve_child
    resolve_child-Settled children depth results row h =
        if-Settled (is_empty children) (give row) _ (give-Settled j runner row)
          (with_depth-Settled depth results row h)

    tasks-Settled :
        (fields : FieldSelections) (depth : ℕ) (parent : j.Value)
        → Settled j runner (tasks j runner resolvers max_depth fields depth parent)
    unfolding tasks
    tasks-Settled end depth parent = give-Settled j runner []
    tasks-Settled (field name children is_leaf rest) depth parent =
        elim (Option-cases (Map.get (base_name name) resolvers)) [
          | inl absent ↦ rw (tasks, absent) (tasks-Settled rest depth parent)
          | inr (resolver, there) ↦
              rw (tasks, there)
                (if-Settled (is_leaf || is_empty children) _ _ (tasks-Settled rest depth parent) (
                  beside-Settled j runner _ _
                    (bind-Settled j runner _ _
                      (resolve_field-Settled name resolver.sql resolver.param resolver.batch_by
                        (parent ∷ []) _ (answers (base_name name) resolver there)
                        (λ row.
                          resolve_child-Settled children (suc depth) _ row
                            (tasks-Settled children (suc depth) row)))
                      (λ per. give-Settled j runner (base_name name, resolver, per)))
                    (tasks-Settled rest depth parent)))
        ]

    resolve_children-Settled :
        (children : FieldSelections) (parent : j.Value)
        → Settled j runner (resolve_children j runner resolvers max_depth children parent)
    unfolding resolve_children resolve_children_with_depth
    resolve_children-Settled children parent =
        with_depth-Settled 0 _ parent (tasks-Settled children 0 parent)

    pub resolve_selected-Settled :
        (children : FieldSelections) (depth : ℕ) (row : j.Value)
        → Settled j runner (resolve_selected j runner resolvers max_depth children depth row)
    unfolding resolve_selected
    resolve_selected-Settled children depth row =
        resolve_child-Settled children depth _ row (tasks-Settled children depth row)

    resolve_children_batched-Settled :
        (fields : FieldSelections) (parents : List j.Value)
        → Settled j runner (resolve_children_batched j runner resolvers max_depth fields parents)
    unfolding resolve_children_batched
    resolve_children_batched-Settled end parents = give-Settled j runner parents
    resolve_children_batched-Settled (field name children is_leaf rest) parents =
        elim (Option-cases (Map.get (base_name name) resolvers)) [
          | inl absent ↦
              rw (resolve_children_batched, absent) (resolve_children_batched-Settled rest parents)
          | inr (resolver, there) ↦
              rw (resolve_children_batched, there)
                (if-Settled (is_leaf || is_empty children) _ _
                  (resolve_children_batched-Settled rest parents)
                  (bind-Settled j runner _ _
                    (resolve_field-Settled name resolver.sql resolver.param resolver.batch_by
                      parents _ (answers (base_name name) resolver there)
                      (resolve_selected-Settled children 0))
                    (λ per.
                      resolve_children_batched-Settled rest
                        (put_children j runner resolvers max_depth (base_name name) parents per))))
        ]

    resolve_roots-Settled :
        (children : FieldSelections) (values : List j.Value)
        → Settled j runner (resolve_roots j runner resolvers max_depth children values)
    unfolding resolve_roots
    resolve_roots-Settled children values =
        if-Settled (is_empty children) _ _ (give-Settled j runner values) (
          if-Settled (ltb 1 (length values)) _ _ (resolve_children_batched-Settled children values)
            (resolve_rows-Settled j runner _ (resolve_children-Settled children) values))

    root_fields-Settled :
        (fields : FieldSelections) (variables : Map Text j.Value) (values : List j.Value)
        → Settled j runner (root_fields j runner resolvers max_depth fields variables values)
    unfolding root_fields
    root_fields-Settled end variables values = give-Settled j runner values
    root_fields-Settled (field name children is_leaf rest) variables values =
        bind-Settled j runner _ _ (lift-Settled j runner (Map.get (base_name name) resolvers))
          (λ resolver.
            bind-Settled j runner _ _
              (lift-Settled j runner
                (root_param j runner resolvers max_depth name resolver variables))
              (λ value.
                bind-Settled j runner _ _
                  (lift-Settled j runner (runner.run_rows resolver.sql (batch_key j value ∷ [])))
                  (λ rows.
                    bind-Settled j runner _ _ (resolve_roots-Settled children (values ++ rows))
                      (λ resolved. root_fields-Settled rest variables resolved))))

    -- Where the batched queries give the rows of their keys, and what the cache holds is what they
    -- give: two runs of a query on one database have the same outcome, an error included, whatever
    -- their caches hold, whether there is a cache at all, and whatever the clocks say. The cache is
    -- left with what the queries give.
    pub execute-same :
        (selection : FieldSelections) (variables : Map Text j.Value) (s s' : State j)
        → Fresh j runner s
        → Fresh j runner s'
        → ((execute j runner resolvers max_depth selection variables s).0
            ≡ (execute j runner resolvers max_depth selection variables s').0)
          × Fresh j runner (execute j runner resolvers max_depth selection variables s).1
    unfolding execute
    execute-same selection variables s s' h h' =
        let (o, means) =
          bind-Settled j runner (root_fields j runner resolvers max_depth selection variables []) _
            (root_fields-Settled selection variables [])
            (λ values. give-Settled j runner (document j runner resolvers max_depth values)) in
        let (e, kept) = means s h in let (e', _) = means s' h' in (e ∙ sym e', kept)
