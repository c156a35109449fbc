-- ===== src/Graphql/Executor/Batching.antt =====
-- One query for all parents against a query for each, in graphql/executor.rs.
use pg_x.Base.{
  ℕ, ◌≡◌, ◌≢◌, refl, sym, ap, ◌∙◌, inl, inr, Option-cases, Option, none, some, List, [], ◌∷◌, true,
  All, arith,
}
use mathlib.Core.Path.{subst}
use pg_x.Map.{Map, text_key, beq_refl}
use pg_x.Text.{Text}
use pg_x.Graphql.Json.{Json, contains_key, batch_key, get_field, field_key}
use pg_x.Graphql.Run.{QueryRunner, State, Run, ◌>>=◌, cons_both, on_outcome}
use pg_x.Graphql.Loader.Rows.{matching, any_of-one}
use pg_x.Graphql.Loader.Shared.{Fresh, Batches, children_of}
use pg_x.Graphql.Executor.{
  ResolverConfig, base_name, or_name, per_parent, param_value, each_parent,
  resolve_field_for_parents, resolve_selected,
}
use pg_x.Graphql.Query.{FieldSelections}
use pg_x.Graphql.Executor.Settled.{
  Means, Settled, and_then, bind-Means, beside-Means, resolve_rows-Settled, keys_of, batched-Means,
}
use pg_x.Graphql.Executor.Transparent.{Answers, resolve_selected-Settled}

and_then-cons_both :
    {A : Type 0} (o : Option A) (os : Option (List A))
    → and_then o (λ a. and_then os (λ others. some (a ∷ others))) ≡ cons_both o os
and_then-cons_both none os = refl
and_then-cons_both (some a) none = refl
and_then-cons_both (some a) (some others) = refl

module _ (j : Json) (runner : QueryRunner j) (param_name : Text) where
  -- Every parent has the column that its key stands in.
  abbrev pub HaveKey : List j.Value → Type 0
  HaveKey parents = All (λ obj. get_field j param_name obj ≢ none) parents

  param_key :
      (obj : j.Value)
      → get_field j param_name obj ≢ none
      → batch_key j (param_value j runner param_name obj) ≡ field_key j param_name obj
  unfolding param_value field_key
  param_key obj there = elim (Option-cases (get_field j param_name obj)) [
    | inl absent ↦ absurd (there absent)
    | inr (v, e) ↦ ground (arith, e)
  ]

  keys_of-cons :
      (obj : j.Value) (parents : List j.Value)
      → get_field j param_name obj ≢ none
      → keys_of j runner param_name (obj ∷ parents)
        ≡ field_key j param_name obj ∷ keys_of j runner param_name parents
  unfolding field_key
  keys_of-cons obj parents there = elim (Option-cases (get_field j param_name obj)) [
    | inl absent ↦ absurd (there absent)
    | inr (v, e) ↦ ground (arith, e)
  ]

  abbrev Covers : List Text → List j.Value → Type 0
  Covers keys parents = All (λ obj. contains_key (field_key j param_name obj) keys ≡ true) parents

  Covers-more :
      (k : Text) (keys : List Text) (parents : List j.Value)
      → Covers keys parents
      → Covers (k ∷ keys) parents
  Covers-more k keys [] h = tt
  Covers-more k keys (obj ∷ parents) (c, h) = (ground arith, Covers-more k keys parents h)

  keys_of-Covers :
      (parents : List j.Value)
      → HaveKey parents
      → Covers (keys_of j runner param_name parents) parents
  keys_of-Covers [] h = tt
  keys_of-Covers (obj ∷ parents) (there, h) =
      let k = field_key j param_name obj in
      subst (λ keys. Covers keys (obj ∷ parents)) (sym (keys_of-cons obj parents there))
        (
          rw (beq_refl k) refl,
          Covers-more k (keys_of j runner param_name parents) parents (keys_of-Covers parents h),
        )

  module _ (sql column : Text) (table : List j.Value) (batches : Batches j runner sql column table)
      (below : j.Value → Run j j.Value)
      (settled : (row : j.Value) → Settled j runner (below row)) where
    both_mean :
        (keys : List Text) (parents : List j.Value)
        → HaveKey parents
        → Covers keys parents
        → (o : Option (List (List j.Value))) × Means j runner
            (per_parent j runner
              (children_of j runner sql column table batches keys)
              param_name
              below
              parents)
            o
          × Means j runner (each_parent j runner sql param_name below parents) o
    unfolding per_parent each_parent ◌>>=◌ on_outcome
    both_mean keys [] h c = (some [], λ s f. (refl, f), λ s f. (refl, f))
    both_mean keys (obj ∷ parents) (there, h) (covered, c) =
        let (os, one, each) = both_mean keys parents h c in
        let k = field_key j param_name obj in
        let rows = matching j column k table in
        let (o, means) = resolve_rows-Settled j runner below settled rows in
        let asked : runner.run_rows_array sql
              (batch_key j (param_value j runner param_name obj) ∷ [])
            ≡ some rows =
          ap (λ t. runner.run_rows_array sql (t ∷ [])) (param_key obj there)
          ∙ batches (k ∷ [])
          ∙ ap some (any_of-one j column k table) in
        let kids : children_of j runner sql column table batches keys k ≡ rows = rw covered refl in
        (
          cons_both o os,
          rw (kids, sym (and_then-cons_both o os))
              (bind-Means j runner _ _ o _ means (λ resolved.
                bind-Means j runner _ _ os (λ others. some (resolved ∷ others)) one
                  (λ others s f. (refl, f)))),
          beside-Means j runner _ _ o os (rw asked means) each,
        )

-- A field resolved for some parents by one query for all their keys, and by a query for each: where
-- every parent has the column of its key, and the batched queries give the rows of their keys, the
-- children of each parent are the same, resolved to any depth, whatever the caches hold.
pub resolve_field-batching :
    (j : Json) (runner : QueryRunner j) (resolvers : Map Text ResolverConfig) (max_depth : ℕ)
    (name sql column : Text) (param : Option Text) (table : List j.Value)
    (children : FieldSelections) (depth : ℕ) (parents : List j.Value) (s s' : State j)
    → Answers j runner resolvers
    → Batches j runner sql column table
    → HaveKey j runner (or_name param (base_name name)) parents
    → Fresh j runner s
    → Fresh j runner s'
    → let below = resolve_selected j runner resolvers max_depth children depth in
      let config : Option Text → ResolverConfig =
        λ batch_by. record { sql = sql; param = param; batch_by = batch_by } in
      (resolve_field_for_parents j runner name (config (some column)) parents below s).0
      ≡ (resolve_field_for_parents j runner name (config none) parents below s').0
unfolding resolve_field_for_parents
resolve_field-batching j runner resolvers max_depth name sql column param table children depth
      parents s s' answers batches there h h' =
    let param_name = or_name param (base_name name) in
    let below = resolve_selected j runner resolvers max_depth children depth in
    let settled = resolve_selected-Settled j runner resolvers max_depth answers children depth in
    let keys = keys_of j runner param_name parents in
    let (o, one, each) =
      both_mean j runner param_name sql column table batches below settled keys parents there
        (keys_of-Covers j runner param_name parents there) in
    let (e, _) =
      batched-Means j runner sql column table batches param_name below parents o one s h in
    let (e', _) = each s' h' in e ∙ sym e'
