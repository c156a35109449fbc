-- ===== src/Graphql/Loader/Shared.antt =====
-- graphql/dataloader.rs with the cache of graphql/pool.rs behind it: what a loader's children are.
use pg_x.Base.{
  ◌≡◌, ◌≢◌, refl, sym, ap, ◌∙◌, inl, inr, Bool-cases, Option-cases, ℕ, Option, none, some, List, [],
  ◌∷◌, if◌then◌else◌,
}
use pg_x.Map
use pg_x.Map.{Map, text_key, pair_key, get-insert}
use pg_x.Text.{Text}
use pg_x.Graphql.Json.{Json, contains_key}
use pg_x.Graphql.Cache
use pg_x.Graphql.Cache.{CacheEntry, GlobalDataCache}
use pg_x.Graphql.Cache.Hits.{IsHit, get-IsHit}
use pg_x.Graphql.Run.{QueryRunner, State}
use pg_x.Graphql.Loader.{
  unique_onto, or_nil, DataLoader, new, group, get_children, store, query, from_cache, load,
  execute,
}
use pg_x.Graphql.Loader.Rows.{
  matching, any_of, any_of-one, matching-any_of, or_nil-group, group-NoneEmpty, contains_key_unique,
}

module _ (j : Json) (r : QueryRunner j) where
  -- What is kept for a key is what a query for this key alone gives.
  abbrev pub IsFresh : GlobalDataCache j → Type 0
  IsFresh cache =
      (sql batch_by : Text) (entry : CacheEntry j)
      → Map.get (sql, batch_by) cache.inner ≡ some entry
      → (k : Text) (rows : List j.Value) → Map.get k entry.children ≡ some rows
      → r.run_rows_array sql (k ∷ []) ≡ some rows

  abbrev FreshIn : Option (GlobalDataCache j) → Type 0
  FreshIn none = Unit {0}
  FreshIn (some cache) = IsFresh cache

  -- A runner without a cache, or with one that is fresh.
  abbrev pub Fresh : State j → Type 0
  Fresh s = FreshIn s.global_cache

  -- A batched query gives the rows of a table whose key is among those asked for.
  abbrev pub Batches : Text → Text → List j.Value → Type 0
  Batches sql batch_by table =
      (keys : List Text) → r.run_rows_array sql keys ≡ some (any_of j batch_by keys table)

  module _ (sql column : Text) (table : List j.Value) (batches : Batches sql column table) where
    -- The children of a loader that has asked for some keys.
    abbrev pub children_of : List Text → Text → List j.Value
    children_of keys k = if contains_key k keys then matching j column k table else []

    one_key :
        (k : Text) {rows : List j.Value}
        → r.run_rows_array sql (k ∷ []) ≡ some rows
        → rows ≡ matching j column k table
    one_key k e = cc (e, batches (k ∷ []), any_of-one j column k table)

    get-grouped :
        (keys : List Text) (k : Text)
        → or_nil (Map.get k (group j column (any_of j column keys table) [])) ≡ children_of keys k
    unfolding Map.get
    get-grouped keys k =
        or_nil-group j column k (any_of j column keys table) []
        ∙ matching-any_of j column k keys table

    grouped_kept :
        (keys : List Text) (k : Text) (rows : List j.Value)
        → Map.get k (group j column (any_of j column keys table) []) ≡ some rows
        → r.run_rows_array sql (k ∷ []) ≡ some rows
    unfolding Map.get
    grouped_kept keys k rows e =
        let some_rows : rows ≢ [] = λ p.
          group-NoneEmpty j column (any_of j column keys table) [] (λ i q. cc q) k
            (e ∙ ap some p) in
        let same : rows ≡ children_of keys k = ap or_nil (sym e) ∙ get-grouped keys k in
        elim (Bool-cases (contains_key k keys)) [
          | inl asked ↦
              batches (k ∷ []) ∙ ap some (any_of-one j column k table ∙ sym (rw asked at same))
          | inr unasked ↦ absurd (some_rows (rw unasked at same))
        ]

    insert-IsFresh :
        (now : ℕ) (keys : List Text) (cache : GlobalDataCache j)
        → IsFresh cache
        → IsFresh
            (Cache.insert j now sql column (group j column (any_of j column keys table) []) cache)
    unfolding Cache.insert
    insert-IsFresh now keys cache h sql' column' entry found k rows e =
        let added : CacheEntry j = record {
          children = group j column (any_of j column keys table) [];
          inserted_at = now;
        } in
        let there = get-insert (sql, column) (sql', column') added cache.inner in
        elim (Bool-cases (pair_key.beq (sql, column) (sql', column'))) [
          | inl same ↦
              let q = (pair_key.beq_iff (sql, column) (sql', column')).0 same in
              let new_one : added ≡ entry = cc (there, found, same) in
              let kept =
                grouped_kept keys k rows
                  (ap (λ (x : CacheEntry j). Map.get k x.children) new_one ∙ e) in
              ap (λ (p : Text × Text). r.run_rows_array p.0 (k ∷ [])) (sym q) ∙ kept
          | inr other ↦ h sql' column' entry (sym (rw other at there) ∙ found) k rows e
        ]

    -- A loader that answers every key as it should, and a cache that is left fresh.
    pub record Loads (keys : List Text) (outcome : Option (DataLoader j) × State j) : Type 0 where
      pub loader : DataLoader j
      pub gives : outcome.0 ≡ some loader
      pub answers : (k : Text) → get_children j loader k ≡ children_of keys k
      pub fresh : Fresh outcome.1

    asking : List Text → DataLoader j
    asking keys = record (new j sql column) { keys = keys }

    state : Option (GlobalDataCache j) → ℕ → State j
    state cache now = record { global_cache = cache; now = now }

    query-Loads :
        (keys all : List Text) (cache : Option (GlobalDataCache j)) (now : ℕ)
        → FreshIn cache
        → Loads keys (query j r keys (asking all) (state cache now))
    unfolding query store get_children asking new state
    query-Loads keys all none now h =
        rw (query, batches keys)
          (record { loader = _; gives = refl; answers = get-grouped keys; fresh = tt })
    query-Loads keys all (some cache) now h =
        rw (query, batches keys)
          (record {
            loader = _;
            gives = refl;
            answers = get-grouped keys;
            fresh = insert-IsFresh (r.later now) keys cache h;
          })

    -- A hit answers as the query would.
    hit_answers :
        (keys : List Text) (cache : GlobalDataCache j) (hit : Map Text (List j.Value))
        → IsFresh cache
        → IsHit j sql column keys cache hit
        → (k : Text) → or_nil (Map.get k hit) ≡ children_of keys k
    hit_answers keys cache hit h i k = elim (Bool-cases (contains_key k keys)) [
      | inr unasked ↦ ap or_nil (i.shown k) ∙ rw unasked refl
      | inl asked ↦ elim (Option-cases (Map.get k i.entry.children)) [
        | inl absent ↦ absurd (i.full k asked absent)
        | inr (rows, there) ↦
            let same = one_key k (h sql column i.entry i.found k rows there) in
            ap or_nil (i.shown k) ∙ rw (asked, there) same
      ]
    ]

    from_cache-Loads :
        (keys all : List Text) (cache : GlobalDataCache j) (now : ℕ)
        → IsFresh cache
        → Loads keys (from_cache j r keys (asking all) cache (state (some cache) now))
    unfolding from_cache get_children asking new state
    from_cache-Loads keys all cache now h =
        elim (Option-cases (Cache.get j (r.later now) sql column keys cache)) [
          | inl missed ↦ rw (from_cache, missed) (query-Loads keys all (some cache) (r.later now) h)
          | inr (hit, there) ↦
              let i = get-IsHit j (r.later now) sql column keys cache hit there in
              rw (from_cache, there)
                (record {
                  loader = _;
                  gives = refl;
                  answers = hit_answers keys cache hit h i;
                  fresh = h;
                })
        ]

    load-Loads :
        (keys all : List Text) (cache : Option (GlobalDataCache j)) (now : ℕ)
        → FreshIn cache
        → Loads keys (load j r keys (asking all) (state cache now))
    unfolding load get_children asking new state Map.get
    load-Loads [] all cache now h = record {
      loader = _;
      gives = refl;
      answers = λ k. refl;
      fresh = h;
    }
    load-Loads (k ∷ ks) all none now h = query-Loads (k ∷ ks) all none now h
    load-Loads (k ∷ ks) all (some cache) now h = from_cache-Loads (k ∷ ks) all cache now h

    -- Whether the cache answers or the database: the children are those of the keys that were added.
    pub execute-Loads :
        (keys : List Text) (s : State j)
        → Fresh s
        → Loads keys (execute j r (record (new j sql column) { keys = keys }) s)
    unfolding execute asking new state
    execute-Loads keys s h =
        let l = load-Loads (unique_onto [] keys) keys s.global_cache s.now h in
        record {
          loader = l.loader;
          gives = l.gives;
          answers = λ k.
              l.answers k
              ∙ ap (λ b. if b then matching j column k table else []) (contains_key_unique k keys);
          fresh = l.fresh;
        }
