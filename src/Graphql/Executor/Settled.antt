-- ===== src/Graphql/Executor/Settled.antt =====
-- The document of graphql/executor.rs does not depend on what the shared cache holds.
use pg_x.Base.{
  ◌≡◌, refl, sym, ap, ◌∙◌, inl, inr, Option-cases, Option, none, some, List, [], ◌∷◌, ◌++◌,
}
use mathlib.Core.Path.{fun_ext}
use mathlib.Core.List.{append-nil, append_assoc}
use pg_x.Map.{text_key}
use pg_x.Text.{Text}
use pg_x.Graphql.Json.{Json, batch_key, get_field, field_key}
use pg_x.Graphql.Run.{QueryRunner, State, Run, on_outcome, ◌>>=◌, give, lift, cons_both, beside}
use pg_x.Graphql.Loader
use pg_x.Graphql.Loader.{DataLoader, add_key, get_children}
use pg_x.Graphql.Loader.Shared.{Fresh, Batches, children_of, execute-Loads}
use pg_x.Graphql.Executor.{resolve_rows, add_keys, per_parent, param_value, each_parent}

abbrev pub and_then : {A B : Type 0} → Option A → (A → Option B) → Option B
and_then none g = none
and_then (some a) g = g a

module _ (j : Json) (runner : QueryRunner j) where
  -- Whatever a fresh cache holds, the outcome is this one, and the cache is left fresh.
  abbrev pub Means : {A : Type 0} → Run j A → Option A → Type 0
  Means m o = (s : State j) → Fresh j runner s → ((m s).0 ≡ o) × Fresh j runner (m s).1

  abbrev pub Settled : {A : Type 0} → Run j A → Type 0
  Settled {A} m = (o : Option A) × Means m o

  on_outcome-some :
      {A B : Type 0} (r : Option A × State j) (f : A → Run j B) (a : A)
      → r.0 ≡ some a
      → on_outcome r f ≡ f a r.1
  unfolding on_outcome
  on_outcome-some (none, s) f a e = cc
  on_outcome-some (some b, s) f a e = cc e

  on_outcome-none :
      {A B : Type 0} (r : Option A × State j) (f : A → Run j B)
      → r.0 ≡ none
      → on_outcome r f ≡ (none, r.1)
  unfolding on_outcome
  on_outcome-none (none, s) f e = refl
  on_outcome-none (some b, s) f e = cc

  pub lift-Settled : {A : Type 0} (o : Option A) → Settled (lift o)
  lift-Settled o = (o, λ s h. (refl, h))

  pub give-Settled : {A : Type 0} (a : A) → Settled (give a)
  give-Settled a = (some a, λ s h. (refl, h))

  pub bind-Means :
      {A B : Type 0} (m : Run j A) (f : A → Run j B) (o : Option A) (g : A → Option B)
      → Means m o
      → ((a : A) → Means (f a) (g a))
      → Means (m >>= f) (and_then o g)
  unfolding ◌>>=◌
  bind-Means m f none g means next s h =
      let (e, kept) = means s h in rw (on_outcome-none (m s) f e) (refl, kept)
  bind-Means m f (some a) g means next s h =
      let (e, kept) = means s h in rw (on_outcome-some (m s) f a e) (next a (m s).1 kept)

  pub bind-Settled :
      {A B : Type 0} (m : Run j A) (f : A → Run j B)
      → Settled m
      → ((a : A) → Settled (f a))
      → Settled (m >>= f)
  bind-Settled m f (o, means) next =
      (and_then o (λ a. (next a).0), bind-Means m f o (λ a. (next a).0) means (λ a. (next a).1))

  pub beside-Means :
      {A : Type 0} (m : Run j A) (rest : Run j (List A)) (o : Option A) (os : Option (List A))
      → Means m o
      → Means rest os
      → Means (beside m rest) (cons_both o os)
  unfolding beside
  beside-Means m rest o os means mean s h =
      let (e, kept) = means s h in let (es, left) = mean (m s).1 kept in (cc (e, es), left)

  pub beside-Settled :
      {A : Type 0} (m : Run j A) (rest : Run j (List A))
      → Settled m
      → Settled rest
      → Settled (beside m rest)
  beside-Settled m rest (o, means) (os, mean) =
      (cons_both o os, beside-Means m rest o os means mean)

  module _ (below : j.Value → Run j j.Value)
      (rows_settled : (row : j.Value) → Settled (below row)) where
    pub resolve_rows-Settled : (rows : List j.Value) → Settled (resolve_rows j runner below rows)
    unfolding resolve_rows
    resolve_rows-Settled [] = give-Settled []
    resolve_rows-Settled (row ∷ rows) = bind-Settled (below row) _ (rows_settled row) (λ child.
        bind-Settled (resolve_rows j runner below rows) _ (resolve_rows-Settled rows)
          (λ resolved. give-Settled (child ∷ resolved)))

    pub per_parent-Settled :
        (kids : Text → List j.Value) (param_name : Text) (parents : List j.Value)
        → Settled (per_parent j runner kids param_name below parents)
    unfolding per_parent
    per_parent-Settled kids param_name [] = give-Settled []
    per_parent-Settled kids param_name (obj ∷ parents) =
        bind-Settled (resolve_rows j runner below (kids (field_key j param_name obj))) _
          (resolve_rows-Settled (kids (field_key j param_name obj)))
          (λ resolved.
            bind-Settled (per_parent j runner kids param_name below parents) _
              (per_parent-Settled kids param_name parents)
              (λ others. give-Settled (resolved ∷ others)))

    pub each_parent-Settled :
        (sql param_name : Text) (parents : List j.Value)
        → Settled (each_parent j runner sql param_name below parents)
    unfolding each_parent
    each_parent-Settled sql param_name [] = give-Settled []
    each_parent-Settled sql param_name (obj ∷ parents) =
        let rows =
          runner.run_rows_array sql (batch_key j (param_value j runner param_name obj) ∷ []) in
        beside-Settled _ _
          (bind-Settled (lift rows) (resolve_rows j runner below) (lift-Settled rows)
            resolve_rows-Settled)
          (each_parent-Settled sql param_name parents)

  -- The keys that a loader gets from the parents, in order.
  abbrev pub keys_of : Text → List j.Value → List Text
  keys_of param_name [] = []
  keys_of param_name (obj ∷ parents) = elim (get_field j param_name obj) [
    | none ↦ keys_of param_name parents
    | some key ↦ batch_key j key ∷ keys_of param_name parents
  ]

  asks : Text → Text → List Text → DataLoader j
  asks sql column keys = record (Loader.new j sql column) { keys = keys }

  add_keys-eq :
      (param_name sql column : Text) (keys : List Text) (parents : List j.Value)
      → add_keys j runner param_name parents (asks sql column keys)
        ≡ asks sql column (keys ++ keys_of param_name parents)
  unfolding add_keys asks add_key Loader.new
  add_keys-eq param_name sql column keys [] = ap (asks sql column) (sym (append-nil keys))
  add_keys-eq param_name sql column keys (obj ∷ parents) =
      elim (Option-cases (get_field j param_name obj)) [
        | inl absent ↦ rw (absent, keys_of) (add_keys-eq param_name sql column keys parents)
        | inr (key, there) ↦
            rw (there, keys_of)
              (add_keys-eq param_name sql column (keys ++ batch_key j key ∷ []) parents
                ∙ ap (asks sql column)
                    (append_assoc keys (batch_key j key ∷ []) (keys_of param_name parents)))
      ]

  module _ (sql column : Text) (table : List j.Value)
      (batches : Batches j runner sql column table) where
    abbrev pub batched :
        Text → (j.Value → Run j j.Value) → List j.Value → Run j (List (List j.Value))
    batched param_name below parents =
        Loader.execute j runner (add_keys j runner param_name parents (Loader.new j sql column))
        >>= λ loader. per_parent j runner (get_children j loader) param_name below parents

    -- One query for all the parents does for each what a query for its own key does.
    pub batched-Means :
        (param_name : Text) (below : j.Value → Run j j.Value) (parents : List j.Value)
        (o : Option (List (List j.Value)))
        → Means
            (per_parent j runner
              (children_of j runner sql column table batches (keys_of param_name parents))
              param_name
              below
              parents)
            o
        → Means (batched param_name below parents) o
    unfolding ◌>>=◌ asks Loader.new
    batched-Means param_name below parents o means s h =
        let keys = keys_of param_name parents in
        let l = execute-Loads j runner sql column table batches keys s h in
        let same : get_children j l.loader ≡ children_of j runner sql column table batches keys =
          fun_ext l.answers in
        let e : Loader.execute j runner
              (add_keys j runner param_name parents (Loader.new j sql column)) s
            ≡ Loader.execute j runner (asks sql column keys) s =
          ap (λ d. Loader.execute j runner d s) (add_keys-eq param_name sql column [] parents) in
        rw
          (
            e,
            on_outcome-some (Loader.execute j runner (asks sql column keys) s)
                (λ loader. per_parent j runner (get_children j loader) param_name below parents)
                l.loader l.gives,
            same,
          )
          (means (Loader.execute j runner (asks sql column keys) s).1 l.fresh)
