-- ===== src/Graphql/Json.antt =====
-- The JSON values that graphql/executor.rs handles, and the batch keys of graphql/batch.rs.
use pg_x.Base.{Option, none, some, List, [], ◌∷◌, Bool, true, false, if◌then◌else◌}
use pg_x.Map
use pg_x.Map.{Map, text_eq, text_key}
use pg_x.Text.{Text, codes}

-- Among a list of batch keys.
abbrev pub contains_key : Text → List Text → Bool
contains_key k [] = false
contains_key k (key ∷ keys) = if text_eq key k then true else contains_key k keys

-- What a match on `serde_json::Value` tells apart; a number and `other` carry their `to_string`.
pub data Shape : Type 0 where
  null : Shape
  bool : Bool → Shape
  number text other : Text → Shape

-- `serde_json::Value`. `entries` is the map of an object.
pub record Json : Type 1 where
  pub Value : Type 0
  pub shape : Value → Shape
  pub null_value : Value
  pub array : List Value → Value
  pub object : Map Text Value → Value
  pub entries : Value → Option (Map Text Value)

key_of_shape : Shape → Text
key_of_shape null = []
key_of_shape (bool true) = codes "true"
key_of_shape (bool false) = codes "false"
key_of_shape (number s) = s
key_of_shape (text s) = s
key_of_shape (other s) = s

module _ (j : Json) where
  unfoldable pub batch_key : j.Value → Text
  unfolding key_of_shape
  batch_key v = key_of_shape (j.shape v)

  -- `v.get(name)`
  unfoldable pub get_field : Text → j.Value → Option j.Value
  get_field name v = elim (j.entries v) [ none ↦ none | some m ↦ Map.get name m ]

  -- `obj.get(name).map(batch_key).unwrap_or_default()`
  unfoldable pub field_key : Text → j.Value → Text
  unfolding batch_key get_field
  field_key name v = elim (get_field name v) [ none ↦ [] | some w ↦ batch_key w ]

  -- An object gets the entry; any other value stays.
  unfoldable pub put_field : Text → j.Value → j.Value → j.Value
  put_field name value v = elim (j.entries v) [
    | none ↦ v
    | some m ↦ j.object (Map.insert name value m)
  ]
