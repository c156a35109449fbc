-- ===== src/Graphql/Loader/Rows.antt =====
-- The rows that graphql/dataloader.rs groups by their keys.
use pg_x.Base.{
  ◌≡◌, ◌≢◌, refl, sym, ap, ◌∙◌, inl, inr, Bool-cases, some, List, [], ◌∷◌, ◌++◌, false,
  if◌then◌else◌, arith,
}
use mathlib.Core.List.{append-nil, append_assoc}
use pg_x.Map
use pg_x.Map.{Map, text_eq, text_eq_iff, text_key, get-insert}
use pg_x.Text.{Text}
use pg_x.Graphql.Json.{Json, contains_key, field_key}
use pg_x.Graphql.Loader.{unique_onto, or_nil, group}

text_eq_sym : (a b : Text) → text_eq a b ≡ text_eq b a
text_eq_sym a b = ground (arith, text_eq_iff a b, text_eq_iff b a)

-- Leaving out repetitions keeps the keys, but for those that were seen before.
contains_key-unique_onto :
    (k : Text) (seen keys : List Text)
    → contains_key k (unique_onto seen keys)
      ≡ (if contains_key k seen then false else contains_key k keys)
unfolding unique_onto
contains_key-unique_onto k seen [] = ground arith
contains_key-unique_onto k seen (key ∷ keys) = ground (
  arith,
  contains_key-unique_onto k seen keys,
  contains_key-unique_onto k (key ∷ seen) keys,
  text_eq_iff key k,
)

pub contains_key_unique :
    (k : Text) (keys : List Text) → contains_key k (unique_onto [] keys) ≡ contains_key k keys
contains_key_unique k keys = contains_key-unique_onto k [] keys

module _ (j : Json) (column : Text) where
  -- The rows with a key.
  unfoldable pub matching : Text → List j.Value → List j.Value
  matching k [] = []
  matching k (row ∷ rows) =
      let rest = matching k rows in if text_eq (field_key j column row) k then row ∷ rest else rest

  -- The rows of a table whose key is among those asked for: what `= ANY($1)` says.
  unfoldable pub any_of : List Text → List j.Value → List j.Value
  any_of keys [] = []
  any_of keys (row ∷ rows) =
      let rest = any_of keys rows in
      if contains_key (field_key j column row) keys then row ∷ rest else rest

  pub any_of-one : (k : Text) (table : List j.Value) → any_of (k ∷ []) table ≡ matching k table
  unfolding any_of matching
  any_of-one k [] = refl
  any_of-one k (row ∷ rows) =
      ground (arith, any_of-one k rows, text_eq_sym k (field_key j column row))

  pub matching-any_of :
      (k : Text) (keys : List Text) (table : List j.Value)
      → matching k (any_of keys table) ≡ (if contains_key k keys then matching k table else [])
  unfolding any_of matching
  matching-any_of k keys [] = ground arith
  matching-any_of k keys (row ∷ rows) = elim (Bool-cases (text_eq (field_key j column row) k)) [
    | inl same ↦
        let e = (text_eq_iff (field_key j column row) k).0 same in
        ground (arith, matching-any_of k keys rows, e)
    | inr other ↦ ground (arith, matching-any_of k keys rows)
  ]

  pub or_nil-group :
      (k : Text) (rows : List j.Value) (m : Map Text (List j.Value))
      → or_nil (Map.get k (group j column rows m)) ≡ or_nil (Map.get k m) ++ matching k rows
  unfolding group matching
  or_nil-group k [] m = sym (append-nil (or_nil (Map.get k m)))
  or_nil-group k (row ∷ rows) m =
      let key = field_key j column row in
      let more = or_nil (Map.get key m) ++ row ∷ [] in
      let ih = or_nil-group k rows (Map.insert key more m) in
      let there = get-insert key k more m in
      elim (Bool-cases (text_eq key k)) [
        | inl same ↦
            let e = (text_eq_iff key k).0 same in
            ih
            ∙ rw there (
                rw same (
                  append_assoc (or_nil (Map.get key m)) (row ∷ []) (matching k rows)
                  ∙ ap (λ t. or_nil (Map.get t m) ++ row ∷ matching k rows) e))
        | inr other ↦ rw other (rw (there, other) at ih)
      ]

  -- No key is kept without rows.
  abbrev pub NoneEmpty : Map Text (List j.Value) → Type 0
  NoneEmpty m = (k : Text) → Map.get k m ≢ some []

  pub group-NoneEmpty :
      (rows : List j.Value) (m : Map Text (List j.Value))
      → NoneEmpty m
      → NoneEmpty (group j column rows m)
  unfolding group
  group-NoneEmpty [] m h = h
  group-NoneEmpty (row ∷ rows) m h =
      let key = field_key j column row in
      let old = or_nil (Map.get key m) in
      group-NoneEmpty rows (Map.insert key (old ++ row ∷ []) m) (λ k e. filled k old e)
    where
      filled :
          (k : Text) (old : List j.Value)
          → Map.get k (Map.insert (field_key j column row) (old ++ row ∷ []) m) ≢ some []
      filled k [] e = ground (arith, get-insert (field_key j column row) k (row ∷ []) m, h k)
      filled k (x ∷ xs) e =
          ground (arith, get-insert (field_key j column row) k (x ∷ (xs ++ row ∷ [])) m, h k)
