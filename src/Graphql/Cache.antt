-- ===== src/Graphql/Cache.antt =====
-- `GlobalDataCache` of graphql/pool.rs: the rows of batched queries, kept across messages.
pub mod Hits
use pg_x.Base.{ℕ, ◌-◌, ltb, ◌==◌, if◌then◌else◌, length, Option, none, some, List, [], ◌∷◌}
use pg_x.Map
use pg_x.Map.{Map, text_key, pair_key}
use pg_x.Text.{Text}
use pg_x.Graphql.Json.{Json}

module _ (j : Json) where
  pub record CacheEntry : Type 0 where
    pub children : Map Text (List j.Value)
    pub inserted_at : ℕ

  -- Entries by the query's text and the column.
  pub record GlobalDataCache : Type 0 where
    pub inner : Map (Text × Text) CacheEntry
    pub ttl : ℕ

  -- The keys that are there, with their rows.
  collect : Map Text (List j.Value) → List Text → Map Text (List j.Value)
  collect children [] = []
  collect children (k ∷ ks) = elim (Map.get k children) [
    | none ↦ collect children ks
    | some rows ↦ Map.insert k rows (collect children ks)
  ]

  unfoldable pub get :
      ℕ → Text → Text → List Text → GlobalDataCache → Option (Map Text (List j.Value))
  unfolding collect
  get now sql batch_by keys cache = elim (Map.get (sql, batch_by) cache.inner) [
    | none ↦ none
    | some entry ↦
        let result = collect entry.children keys in
        let answer : Option (Map Text (List j.Value)) =
          if length result == length keys then some result else none in
        if ltb cache.ttl (now - entry.inserted_at) then none else answer
  ]

  unfoldable pub insert :
      ℕ → Text → Text → Map Text (List j.Value) → GlobalDataCache → GlobalDataCache
  insert now sql batch_by children cache = record cache {
    inner =
        Map.insert (sql, batch_by) (record { children = children; inserted_at = now }) cache.inner;
  }

  retained : ℕ → ℕ → Map (Text × Text) CacheEntry → Map (Text × Text) CacheEntry
  retained now ttl [] = []
  retained now ttl ((key, entry) ∷ rest) =
      let kept = retained now ttl rest in
      if ltb (now - entry.inserted_at) ttl then (key, entry) ∷ kept else kept

  unfoldable pub evict_expired : ℕ → GlobalDataCache → GlobalDataCache
  unfolding retained
  evict_expired now cache = record cache { inner = retained now cache.ttl cache.inner }
