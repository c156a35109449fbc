-- ===== src/Replication/Event/Transformed.antt =====
-- What a row holds behind the column transforms of replication/event.rs.
use pg_x.Base.{
  ◌≡◌, refl, Bool, true, false, not, ◌&&◌, ◌||◌, Option, none, some, List, [], ◌∷◌, if◌then◌else◌,
  arith,
}
use pg_x.Map
use pg_x.Map.{text_eq, text_key, text_eq_iff, get-insert, get-remove}
use pg_x.Text.{Text}
use pg_x.Replication.Event.{ColVal, Row, drop_columns, take_renamed, insert_all, transform_row}

abbrev pub listed : List Text → Text → Bool
listed [] k = false
listed (c ∷ cs) k = text_eq c k || listed cs k

abbrev pub or_else {ℓ} : {A : Type ℓ} → Option A → Option A → Option A
or_else none d = d
or_else (some a) d = some a

abbrev pub old_names : List (Text × Text) → List Text
old_names [] = []
old_names ((old, new) ∷ renames) = old ∷ old_names renames

abbrev pub distinct : List Text → Bool
distinct [] = true
distinct (c ∷ cs) = not (listed cs c) && distinct cs

-- The row as a function of the name, with the dropped columns gone.
abbrev pub undropped : List Text → Row → Text → Option ColVal
undropped drop_cols row k = if listed drop_cols k then none else Map.get k row

-- The value that the renames bring to a name: that of the last of them with this new name whose old
-- column is there. Every one reads the row as it was before all renames.
abbrev pub incoming : List (Text × Text) → (Text → Option ColVal) → Text → Option ColVal
incoming [] before k = none
incoming ((old, new) ∷ renames) before k =
    or_else (incoming renames before k) (if text_eq new k then before old else none)

-- The last value of a name in a list of insertions.
abbrev last_of : List (Text × ColVal) → Text → Option ColVal
last_of [] k = none
last_of ((j, v) ∷ pending) k = or_else (last_of pending k) (if text_eq j k then some v else none)

get-drop_columns :
    (cols : List Text) (row : Row) (k : Text)
    → Map.get k (drop_columns cols row) ≡ undropped cols row k
unfolding drop_columns
get-drop_columns [] row k = refl
get-drop_columns (c ∷ cols) row k =
    ground (arith, get-drop_columns cols (Map.remove c row) k, get-remove c k row)

get-insert_all :
    (pending : List (Text × ColVal)) (row : Row) (k : Text)
    → Map.get k (insert_all pending row) ≡ or_else (last_of pending k) (Map.get k row)
unfolding insert_all
get-insert_all [] row k = refl
get-insert_all ((j, v) ∷ pending) row k =
    ground (arith, get-insert_all pending (Map.insert j v row) k, get-insert j k v row)

get-take_renamed :
    (renames : List (Text × Text)) (row : Row) (k : Text)
    → Map.get k (take_renamed renames row).1
      ≡ (if listed (old_names renames) k then none else Map.get k row)
unfolding take_renamed
get-take_renamed [] row k = refl
get-take_renamed ((old, new) ∷ renames) row k =
    ground (arith, get-take_renamed renames (Map.remove old row) k, get-remove old k row)

-- The values that are kept depend only on what the old names read.
incoming_agree :
    (renames : List (Text × Text)) (f g : Text → Option ColVal) (gone : Text) (k : Text)
    → ((j : Text) → f j ≡ (if text_eq gone j then none else g j))
    → listed (old_names renames) gone ≡ false
    → incoming renames f k ≡ incoming renames g k
incoming_agree [] f g gone k h e = refl
incoming_agree ((old, new) ∷ renames) f g gone k h e =
    ground (
      arith,
      incoming_agree renames f g gone k h,
      h old,
      text_eq_iff old gone,
      text_eq_iff gone old,
    )

last_of-take_renamed :
    (renames : List (Text × Text)) (row : Row) (k : Text)
    → distinct (old_names renames) ≡ true
    → last_of (take_renamed renames row).0 k ≡ incoming renames (λ j. Map.get j row) k
unfolding take_renamed
last_of-take_renamed [] row k h = refl
last_of-take_renamed ((old, new) ∷ renames) row k h =
    let ih = last_of-take_renamed renames (Map.remove old row) k in
    let agree =
      incoming_agree renames (λ j. Map.get j (Map.remove old row)) (λ j. Map.get j row) old k
        (λ j. get-remove old j row) in
    ground (arith, ih, agree)

incoming_ext :
    (renames : List (Text × Text)) (f g : Text → Option ColVal) (k : Text)
    → ((j : Text) → f j ≡ g j)
    → incoming renames f k ≡ incoming renames g k
incoming_ext [] f g k h = refl
incoming_ext ((old, new) ∷ renames) f g k h = ground (arith, incoming_ext renames f g k h, h old)

-- With old names that differ from each other, the renames take place at the same time, behind all
-- drops: a name reads the value that a rename brings to it, else nothing if it was renamed away or
-- dropped, and else what it held before.
pub get-transform_row :
    (drop_cols : List Text) (renames : List (Text × Text)) (row : Row) (k : Text)
    → distinct (old_names renames) ≡ true
    → Map.get k (transform_row drop_cols renames row)
      ≡ or_else
          (incoming renames (undropped drop_cols row) k)
          (if listed (old_names renames) k then none else undropped drop_cols row k)
unfolding transform_row
get-transform_row drop_cols renames row k h =
    let dropped = drop_columns drop_cols row in
    ground (
      arith,
      get-insert_all (take_renamed renames dropped).0 (take_renamed renames dropped).1 k,
      last_of-take_renamed renames dropped k h,
      get-take_renamed renames dropped k,
      get-drop_columns drop_cols row k,
      incoming_ext renames (λ j. Map.get j dropped) (undropped drop_cols row) k
          (get-drop_columns drop_cols row),
    )
