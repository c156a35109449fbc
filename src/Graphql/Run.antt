-- ===== src/Graphql/Run.antt =====
-- What graphql/executor.rs runs its queries with: the `QueryRunner` of graphql/runner.rs, with the
-- cache that it shares between messages.
use pg_x.Base.{ℕ, Option, none, some, List, ◌∷◌}
use pg_x.Text.{Text}
use pg_x.Graphql.Json.{Json}
use pg_x.Graphql.Cache.{GlobalDataCache}

module _ (j : Json) where
  -- The database; `none` is a query that fails. `later` is the clock's next reading after one.
  pub record QueryRunner : Type 0 where
    pub run_rows : Text → List Text → Option (List j.Value)
    pub run_rows_array : Text → List Text → Option (List j.Value)
    pub later : ℕ → ℕ

  pub record State : Type 0 where
    pub global_cache : Option (GlobalDataCache j)
    pub now : ℕ

  -- `none` is an error.
  abbrev pub Run : Type 0 → Type 0
  Run A = State → Option A × State

abbrev pub cons_both : {A : Type 0} → Option A → Option (List A) → Option (List A)
cons_both (some a) (some others) = some (a ∷ others)
cons_both _ _ = none

module _ {j : Json} where
  unfoldable pub on_outcome :
      {A B : Type 0} → Option A × State j → (A → Run j B) → Option B × State j
  on_outcome (none, s) f = (none, s)
  on_outcome (some a, s) f = f a s

  infixl 5 ◌>>=◌ ◌>>◌
  unfoldable pub ◌>>=◌ : {A B : Type 0} → Run j A → (A → Run j B) → Run j B
  unfolding on_outcome
  m >>= f = λ s. on_outcome (m s) f

  abbrev pub ◌>>◌ : {A B : Type 0} → Run j A → Run j B → Run j B
  m >> n = m >>= λ _. n

  abbrev pub give : {A : Type 0} → A → Run j A
  give a s = (some a, s)

  -- A call of the database, or a part that has failed.
  abbrev pub lift : {A : Type 0} → Option A → Run j A
  lift o s = (o, s)

  -- One future before those behind it in `join_all`: all of them run, whichever fails.
  unfoldable pub beside : {A : Type 0} → Run j A → Run j (List A) → Run j (List A)
  beside m rest s =
      let (first, s1) = m s in let (others, s2) = rest s1 in (cons_both first others, s2)
