-- ===== src/Graphql/Executor/Comes.antt =====
-- Runs of the database's queries that come to a value, and the fields of graphql/executor.rs that do.
use pg_x.Base.{
  ◌≡◌, ◌≢◌, refl, inl, inr, Option-cases, Option, none, some, List, [], ◌∷◌, Bool, true, false,
  if◌then◌else◌,
}
use pg_x.Map.{text_key}
use pg_x.Text.{Text}
use pg_x.Graphql.Json.{Json, batch_key, field_key}
use pg_x.Graphql.Run.{QueryRunner, State, Run, on_outcome, ◌>>=◌, give, lift, cons_both, beside}
use pg_x.Graphql.Loader
use pg_x.Graphql.Loader.{DataLoader, get_children}
use pg_x.Graphql.Loader.Total.{execute-ne-none}
use pg_x.Graphql.Executor.{
  ResolverConfig, base_name, or_name, resolve_rows, add_keys, per_parent, param_value, each_parent,
  resolve_field_for_parents,
}

module _ (j : Json) where
  abbrev pub Comes : {A : Type 0} → Run j A → Type 0
  Comes m = (s : State j) → (m s).0 ≢ none

  on_outcome-Comes :
      {A B : Type 0} (r : Option A × State j) (f : A → Run j B)
      → r.0 ≢ none
      → ((a : A) → Comes (f a))
      → (on_outcome r f).0 ≢ none
  unfolding on_outcome
  on_outcome-Comes (none, s) f h g = absurd (h refl)
  on_outcome-Comes (some a, s) f h g = g a s

  pub bind-Comes :
      {A B : Type 0} (m : Run j A) (f : A → Run j B)
      → Comes m
      → ((a : A) → Comes (f a))
      → Comes (m >>= f)
  unfolding ◌>>=◌
  bind-Comes m f h g s = on_outcome-Comes (m s) f (h s) g

  pub there-Comes :
      {A B : Type 0} (o : Option A) (f : A → Run j B) (a : A)
      → o ≡ some a
      → Comes (f a)
      → Comes (lift o >>= f)
  unfolding ◌>>=◌ on_outcome
  there-Comes none f a e h = cc
  there-Comes (some b) f a e h = let same : b ≡ a = cc e in rw same h

  pub give-Comes : {A : Type 0} (a : A) → Comes (give a)
  give-Comes a s e = cc

  both_come :
      {A : Type 0} (o : Option A) (os : Option (List A))
      → o ≢ none
      → os ≢ none
      → cons_both o os ≢ none
  both_come none os h k = absurd (h refl)
  both_come (some a) none h k = absurd (k refl)
  both_come (some a) (some others) h k = λ e. cc e

  pub beside-Comes :
      {A : Type 0} (m : Run j A) (rest : Run j (List A))
      → Comes m
      → Comes rest
      → Comes (beside m rest)
  unfolding beside
  beside-Comes m rest h k s = both_come (m s).0 (rest (m s).1).0 (h s) (k (m s).1)

  pub if-Comes :
      {A : Type 0} (b : Bool) (m n : Run j A) → Comes m → Comes n → Comes (if b then m else n)
  if-Comes true m n h k = h
  if-Comes false m n h k = k

module _ (j : Json) (runner : QueryRunner j) where
  -- No query of the database fails.
  pub record IsUp : Type 0 where
    pub rows : (sql : Text) (params : List Text) → runner.run_rows sql params ≢ none
    pub array : (sql : Text) (keys : List Text) → runner.run_rows_array sql keys ≢ none

  module _ (below : j.Value → Run j j.Value) (come : (row : j.Value) → Comes j (below row)) where
    pub resolve_rows-Comes : (rows : List j.Value) → Comes j (resolve_rows j runner below rows)
    unfolding resolve_rows
    resolve_rows-Comes [] = give-Comes j []
    resolve_rows-Comes (row ∷ rows) = bind-Comes j (below row) _ (come row) (λ child.
        bind-Comes j (resolve_rows j runner below rows) _ (resolve_rows-Comes rows)
          (λ resolved. give-Comes j (child ∷ resolved)))

    per_parent-Comes :
        (kids : Text → List j.Value) (param_name : Text) (parents : List j.Value)
        → Comes j (per_parent j runner kids param_name below parents)
    unfolding per_parent
    per_parent-Comes kids param_name [] = give-Comes j []
    per_parent-Comes kids param_name (obj ∷ parents) =
        bind-Comes j (resolve_rows j runner below (kids (field_key j param_name obj))) _
          (resolve_rows-Comes (kids (field_key j param_name obj)))
          (λ resolved.
            bind-Comes j (per_parent j runner kids param_name below parents) _
              (per_parent-Comes kids param_name parents)
              (λ others. give-Comes j (resolved ∷ others)))

    module _ (up : IsUp) where
      each_parent-Comes :
          (sql param_name : Text) (parents : List j.Value)
          → Comes j (each_parent j runner sql param_name below parents)
      unfolding each_parent
      each_parent-Comes sql param_name [] = give-Comes j []
      each_parent-Comes sql param_name (obj ∷ parents) =
          beside-Comes j _ _
            (bind-Comes j
              (lift (
                runner.run_rows_array sql (batch_key j (param_value j runner param_name obj) ∷ [])))
              (resolve_rows j runner below) (λ s. up.array sql _) resolve_rows-Comes)
            (each_parent-Comes sql param_name parents)

      pub resolve_field-Comes :
          (name : Text) (resolver : ResolverConfig) (parents : List j.Value)
          → Comes j (resolve_field_for_parents j runner name resolver parents below)
      unfolding resolve_field_for_parents
      resolve_field-Comes name resolver parents =
          let param_name = or_name resolver.param (base_name name) in
          elim (Option-cases resolver.batch_by) [
            | inl one ↦
                rw (resolve_field_for_parents, one)
                  (each_parent-Comes resolver.sql param_name parents)
            | inr (column, many) ↦
                rw (resolve_field_for_parents, many)
                  (bind-Comes j
                    (Loader.execute j runner
                      (add_keys j runner param_name parents (Loader.new j resolver.sql column)))
                    _ (execute-ne-none j runner up.array _)
                    (λ loader. per_parent-Comes (get_children j loader) param_name parents))
          ]
