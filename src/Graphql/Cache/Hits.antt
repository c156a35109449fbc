-- ===== src/Graphql/Cache/Hits.antt =====
-- What a hit of the cache of graphql/pool.rs holds.
use pg_x.Base.{
  ℕ, suc, ◌≤◌, ◌≡◌, ◌≢◌, refl, ap, ◌∙◌, inl, inr, Option-cases, none, some, List, [], ◌∷◌, true,
  if◌then◌else◌, length, arith,
}
use pg_x.Map
use pg_x.Map.{Map, text_eq, text_eq_iff, text_key, pair_key, get-insert}
use pg_x.Text.{Text}
use pg_x.Graphql.Json.{Json, contains_key}
use pg_x.Graphql.Cache
use pg_x.Graphql.Cache.{CacheEntry, GlobalDataCache, collect}

length-insert_le :
    (j : Json) (k : Text) (v : List j.Value) (m : Map Text (List j.Value))
    → length (Map.insert k v m) ≤ suc (length m)
unfolding Map.insert
length-insert_le j k v [] = omega arith
length-insert_le j k v ((i, w) ∷ m) = ground (arith, length-insert_le j k v m)

module _ (j : Json) (children : Map Text (List j.Value)) where
  collect_absent :
      (key : Text) (keys : List Text)
      → Map.get key children ≡ none
      → collect j children (key ∷ keys) ≡ collect j children keys
  unfolding collect
  collect_absent key keys absent = ground (arith, absent)

  collect_there :
      (key : Text) (keys : List Text) (rows : List j.Value)
      → Map.get key children ≡ some rows
      → collect j children (key ∷ keys) ≡ Map.insert key rows (collect j children keys)
  unfolding collect
  collect_there key keys rows there = ground (arith, there)

  -- What is collected for the keys is what is kept under them.
  get-collect :
      (k : Text) (keys : List Text)
      → Map.get k (collect j children keys)
        ≡ (if contains_key k keys then Map.get k children else none)
  unfolding collect Map.get
  get-collect k [] = refl
  get-collect k (key ∷ keys) = elim (Option-cases (Map.get key children)) [
    | inl absent ↦
        rw (collect_absent key keys absent) (ground (arith, get-collect k keys, text_eq_iff key k))
    | inr (rows, there) ↦ rw (collect_there key keys rows there) (
        ground (
          arith,
          get-collect k keys,
          get-insert key k rows (collect j children keys),
          text_eq_iff key k,
        ))
  ]

  collect_le : (keys : List Text) → length (collect j children keys) ≤ length keys
  unfolding collect
  collect_le [] = omega arith
  collect_le (k ∷ ks) = elim (Option-cases (Map.get k children)) [
    | inl absent ↦ rw (collect_absent k ks absent) (omega (arith, collect_le ks))
    | inr (rows, there) ↦
        rw (collect_there k ks rows there)
          (omega (arith, collect_le ks, length-insert_le j k rows (collect j children ks)))
  ]

  -- A full collection lacks no key.
  collect_full :
      (keys : List Text)
      → length (collect j children keys) ≡ length keys
      → (k : Text) → contains_key k keys ≡ true
      → Map.get k children ≢ none
  collect_full [] full k h = cc
  collect_full (key ∷ keys) full k h = elim (Option-cases (Map.get key children)) [
    | inl absent ↦
        absurd (omega (arith, rw (collect_absent key keys absent) at full, collect_le keys))
    | inr (rows, there) ↦
        let grown = rw (collect_there key keys rows there) at full in
        let size = length-insert_le j key rows (collect j children keys) in
        let full' : length (collect j children keys) ≡ length keys =
          omega (arith, grown, size, collect_le keys) in
        let rest : contains_key k keys ≡ true → Map.get k children ≢ none =
          collect_full keys full' k in
        ground (arith, rest, text_eq_iff key k, there)
  ]

-- A hit is an entry for the query and the column, restricted to the keys, each of which it has.
pub record IsHit (j : Json) (sql batch_by : Text) (keys : List Text) (cache : GlobalDataCache j)
    (hit : Map Text (List j.Value)) : Type 0 where
  pub entry : CacheEntry j
  pub found : Map.get (sql, batch_by) cache.inner ≡ some entry
  pub shown :
      (k : Text) → Map.get k hit ≡ (if contains_key k keys then Map.get k entry.children else none)
  pub full : (k : Text) → contains_key k keys ≡ true → Map.get k entry.children ≢ none

pub get-IsHit :
    (j : Json) (now : ℕ) (sql batch_by : Text) (keys : List Text) (cache : GlobalDataCache j)
    (hit : Map Text (List j.Value))
    → Cache.get j now sql batch_by keys cache ≡ some hit
    → IsHit j sql batch_by keys cache hit
get-IsHit j now sql batch_by keys cache hit e =
    elim (Option-cases (Map.get (sql, batch_by) cache.inner)) [
      | inl absent ↦ absurd (missed absent)
      | inr (entry, there) ↦
          let (collected, sized) = kept entry there in
          record {
            entry = entry;
            found = there;
            shown = λ k. ap (Map.get k) collected ∙ get-collect j entry.children k keys;
            full = collect_full j entry.children keys sized;
          }
    ]
  where
    missed : Map.get (sql, batch_by) cache.inner ≡ none → ⊥
    missed absent = unfold Cache.get in ground (arith, absent, e)

    kept :
        (entry : CacheEntry j)
        → Map.get (sql, batch_by) cache.inner ≡ some entry
        → (hit ≡ collect j entry.children keys)
          × (length (collect j entry.children keys) ≡ length keys)
    kept entry there = unfold Cache.get in ground (arith, there, e)
