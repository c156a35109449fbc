-- ===== src/Graphql/Loader/Total.antt =====
-- A loader of graphql/dataloader.rs comes to an answer where the database does.
use pg_x.Base.{◌≢◌, inl, inr, Option-cases, none, List, [], ◌∷◌, arith}
use pg_x.Text.{Text}
use pg_x.Graphql.Json.{Json}
use pg_x.Graphql.Cache.{GlobalDataCache}
use pg_x.Graphql.Run.{QueryRunner, State}
use pg_x.Graphql.Loader.{unique_onto, DataLoader, store, query, from_cache, load, execute}

module _ (j : Json) (r : QueryRunner j)
    (up : (sql : Text) (keys : List Text) → r.run_rows_array sql keys ≢ none) where
  query-ne-none :
      (keys : List Text) (loader : DataLoader j) (s : State j) → (query j r keys loader s).0 ≢ none
  unfolding query store
  query-ne-none keys loader s = ground (arith, up loader.sql keys)

  from_cache-ne-none :
      (keys : List Text) (loader : DataLoader j) (cache : GlobalDataCache j) (s : State j)
      → (from_cache j r keys loader cache s).0 ≢ none
  unfolding from_cache
  from_cache-ne-none keys loader cache s =
      ground (arith, query-ne-none keys loader (record s { now = r.later s.now }))

  load-ne-none :
      (keys : List Text) (loader : DataLoader j) (s : State j) → (load j r keys loader s).0 ≢ none
  unfolding load
  load-ne-none [] loader s = ground arith
  load-ne-none (k ∷ ks) loader s = elim (Option-cases s.global_cache) [
    | inl absent ↦ ground (arith, absent, query-ne-none (k ∷ ks) loader s)
    | inr (cache, there) ↦ ground (arith, there, from_cache-ne-none (k ∷ ks) loader cache s)
  ]

  pub execute-ne-none : (loader : DataLoader j) (s : State j) → (execute j r loader s).0 ≢ none
  unfolding execute
  execute-ne-none loader s = ground (arith, load-ne-none (unique_onto [] loader.keys) loader s)
