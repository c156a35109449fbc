-- ===== src/Graphql/Loader.antt =====
-- graphql/dataloader.rs: one query for the keys of many parents.
pub mod Rows
pub mod Shared
pub mod Total
use pg_x.Base.{Option, none, some, List, [], ◌∷◌, ◌++◌, Bool, true, false, if◌then◌else◌}
use pg_x.Map
use pg_x.Map.{Map, text_eq, text_key}
use pg_x.Text.{Text}
use pg_x.Graphql.Json.{Json, contains_key, batch_key, field_key}
use pg_x.Graphql.Cache
use pg_x.Graphql.Cache.{GlobalDataCache}
use pg_x.Graphql.Run.{QueryRunner, State, Run}

-- The first occurrence of each key that is not among those seen.
unfoldable pub unique_onto : List Text → List Text → List Text
unique_onto seen [] = []
unique_onto seen (k ∷ ks) =
    let rest = unique_onto seen ks in
    let fresh = k ∷ unique_onto (k ∷ seen) ks in if contains_key k seen then rest else fresh

abbrev pub or_nil {ℓ} : {A : Type ℓ} → Option (List A) → List A
or_nil none = []
or_nil (some xs) = xs

or_text : Option Text → Text → Text
or_text none d = d
or_text (some t) d = t

module _ (j : Json) where
  pub record DataLoader : Type 0 where
    pub keys : List Text
    pub sql : Text
    pub batch_by : Text
    pub result_key : Option Text
    pub resolved : Bool
    pub cached : Map Text (List j.Value)

  unfoldable pub new : Text → Text → DataLoader
  new sql batch_by = record {
    keys = [];
    sql = sql;
    batch_by = batch_by;
    result_key = none;
    resolved = false;
    cached = [];
  }

  unfoldable pub with_result_key : Text → DataLoader → DataLoader
  with_result_key key loader = record loader { result_key = some key }

  unfoldable pub add_key : j.Value → DataLoader → DataLoader
  add_key key loader = record loader { keys = loader.keys ++ batch_key j key ∷ [] }

  -- `entry(key).or_default().push(row)` for each row.
  unfoldable pub group : Text → List j.Value → Map Text (List j.Value) → Map Text (List j.Value)
  group column [] cached = cached
  group column (row ∷ rows) cached =
      let key = field_key j column row in
      group column rows (Map.insert key (or_nil (Map.get key cached) ++ row ∷ []) cached)

  -- `loader.get_children(key)`
  unfoldable pub get_children : DataLoader → Text → List j.Value
  get_children loader key = or_nil (Map.get key loader.cached)

  module _ (r : QueryRunner j) where
    store : DataLoader → State j → Option DataLoader × State j
    store loader s = elim s.global_cache [
      | none ↦ (some (record loader { resolved = true }), s)
      | some cache ↦
          let now = r.later s.now in
          (
            some (record loader { resolved = true }),
            record {
              global_cache =
                  some (Cache.insert j now loader.sql loader.batch_by loader.cached cache);
              now = now;
            },
          )
    ]

    query : List Text → DataLoader → Run j DataLoader
    unfolding store or_text
    query keys loader s = elim (r.run_rows_array loader.sql keys) [
      | none ↦ (none, s)
      | some rows ↦
          store
            (record loader {
              cached = group (or_text loader.result_key loader.batch_by) rows loader.cached;
            })
            s
    ]

    -- The cache answers where it has every key.
    from_cache : List Text → DataLoader → GlobalDataCache j → Run j DataLoader
    unfolding query
    from_cache keys loader cache s =
        let now = r.later s.now in
        let s' : State j = record s { now = now } in
        elim (Cache.get j now loader.sql loader.batch_by keys cache) [
          | some hit ↦ (some (record loader { cached = hit; resolved = true }), s')
          | none ↦ query keys loader s'
        ]

    load : List Text → DataLoader → Run j DataLoader
    unfolding from_cache
    load [] loader s = (some (record loader { resolved = true }), s)
    load (k ∷ ks) loader s = elim s.global_cache [
      | none ↦ query (k ∷ ks) loader s
      | some cache ↦ from_cache (k ∷ ks) loader cache s
    ]

    -- The cache is the one that the runner shares; the executor attaches it wherever there is one.
    unfoldable pub execute : DataLoader → Run j DataLoader
    unfolding load
    execute loader s =
        if loader.resolved then (some loader, s) else load (unique_onto [] loader.keys) loader s
