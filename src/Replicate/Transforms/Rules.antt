-- ===== src/Replicate/Transforms/Rules.antt =====
-- Which rules the transforms hold for a table, from where they come, and when they do nothing.
use pg_x.Base.{
  ◌≡◌, refl, Option, none, some, List, [], ◌∷◌, ◌++◌, true, false, if◌then◌else◌, Result, ok, err,
  arith, All,
}
use pg_x.Text.{Text}
use pg_x.Replication.Event.{
  Row, WalEvent, insert, update, delete, begin, commit, relation, truncate, keepalive, table_name,
  apply_transforms, transform_row,
}
use pg_x.Replicate.TablePrefix.{TableKey}
use pg_x.Replicate.Transforms.{
  ColumnTransforms, TransformError, key_eq, applies, apply_entries, apply, no_rules, is_empty,
}

-- The rules of a key: of its first entry.
abbrev pub rules_of : TableKey → ColumnTransforms → List Text × List (Text × Text)
rules_of key [] = ([], [])
rules_of key ((k, t) ∷ entries) =
    if key_eq k key then (t.drop_cols, t.renames) else rules_of key entries

-- What the arguments of one kind hold for a key, in their order.
abbrev pub collected {ℓ} :
    {A : Type ℓ}
    → (Text → Result TransformError (TableKey × List A))
    → TableKey
    → List Text
    → List A
collected parse key [] = []
collected parse key (arg ∷ args) =
    elim (parse arg) [ ok (k, found) ↦ if key_eq k key then found else [] | err e ↦ [] ]
    ++ collected parse key args

transform_row_none : (row : Row) → transform_row [] [] row ≡ row
unfolding transform_row
transform_row_none row = refl

apply_transforms_none : (event : WalEvent) → apply_transforms event [] [] ≡ event
unfolding apply_transforms
apply_transforms_none (insert r s t new) = rw (transform_row_none new) refl
apply_transforms_none (update r s t none new) = rw (transform_row_none new) refl
apply_transforms_none (update r s t (some old) new) =
    rw (transform_row_none new, transform_row_none old) refl
apply_transforms_none (delete r s t old) = rw (transform_row_none old) refl
apply_transforms_none (begin _ _ _) = refl
apply_transforms_none (commit _ _ _) = refl
apply_transforms_none (relation _ _ _ _) = refl
apply_transforms_none (truncate _ _ _ _) = refl
apply_transforms_none (keepalive _ _) = refl

no_rules_lem :
    (drop_cols : List Text) (renames : List (Text × Text)) (event : WalEvent)
    → no_rules drop_cols renames ≡ true
    → apply_transforms event drop_cols renames ≡ event
unfolding no_rules
no_rules_lem [] [] event h = apply_transforms_none event
no_rules_lem [] (r ∷ rs) event h = cc
no_rules_lem (c ∷ cs) renames event h = cc

apply_entries_empty :
    (t : ColumnTransforms) (table : Text × Text) (event : WalEvent)
    → is_empty t ≡ true
    → apply_entries t table event ≡ event
unfolding apply_entries is_empty
apply_entries_empty [] table event h = refl
apply_entries_empty ((key, r) ∷ t) table event h =
    ground (arith, no_rules_lem r.drop_cols r.renames event, apply_entries_empty t table event)

-- Transforms with no rules leave every event as it is.
apply_empty : (t : ColumnTransforms) (event : WalEvent) → is_empty t ≡ true → apply t event ≡ event
unfolding apply
apply_empty t event h = at_table (table_name event) refl
  where
    at_table : (o : Option (Text × Text)) → table_name event ≡ o → apply t event ≡ event
    at_table none e = rw (e, apply) refl
    at_table (some table) e = rw (e, apply) (apply_entries_empty t table event h)

apply_entries_other :
    (t : ColumnTransforms) (table : Text × Text) (event : WalEvent)
    → All (λ entry. applies entry.0 table ≡ false) t
    → apply_entries t table event ≡ event
unfolding apply_entries
apply_entries_other [] table event h = refl
apply_entries_other ((key, r) ∷ t) table event h =
    ground (arith, h.0, apply_entries_other t table event h.1)

-- An event of a table that no rule is for is left as it is.
apply_other_tables :
    (t : ColumnTransforms) (event : WalEvent) (table : Text × Text)
    → table_name event ≡ some table
    → All (λ entry. applies entry.0 table ≡ false) t
    → apply t event ≡ event
unfolding apply
apply_other_tables t event table e h = rw (e, apply) (apply_entries_other t table event h)
