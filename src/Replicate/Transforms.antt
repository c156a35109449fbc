-- ===== src/Replicate/Transforms.antt =====
-- commands/replicate/transforms.rs: column transforms by table.
pub mod Rules
use pg_x.Base.{
  none, some, List, [], ◌∷◌, ◌++◌, Bool, true, false, ◌&&◌, if◌then◌else◌, Result, ok, err, ◌>>=◌,
  ◌>>◌,
}
use pg_x.Map.{text_eq, pair_eq}
use pg_x.Text.{Text}
use pg_x.Text.Split.{split, split_once, trim}
use pg_x.Replication.Event.{WalEvent, table_name, apply_transforms}
use pg_x.Replicate.TablePrefix.{TableKey, PrefixError, split_table_prefix}

pub record TableTransform : Type 0 where
  pub drop_cols : List Text
  pub renames : List (Text × Text)

abbrev pub Entry : Type 0
Entry = TableKey × TableTransform

-- The one field of the source's `ColumnTransforms`.
abbrev pub ColumnTransforms : Type 0
ColumnTransforms = List Entry

pub data TransformError : Type 0 where
  prefix : PrefixError → TransformError
  no_columns no_pairs missing_eq empty_name : TransformError

abbrev pub key_eq : TableKey → TableKey → Bool
key_eq none none = true
key_eq (some p) (some q) = pair_eq p q
key_eq _ _ = false

-- The first entry of the key is extended, or a new one is pushed.
unfoldable pub merge :
    TableKey → List Text → List (Text × Text) → ColumnTransforms → ColumnTransforms
merge key drop_cols renames [] = (key, record { drop_cols = drop_cols; renames = renames }) ∷ []
merge key drop_cols renames ((k, tt') ∷ entries) =
    if key_eq k key
    then (k, record { drop_cols = tt'.drop_cols ++ drop_cols; renames = tt'.renames ++ renames })
      ∷ entries
    else (k, tt') ∷ merge key drop_cols renames entries

lift_prefix {ℓ} : {A : Type ℓ} → Result PrefixError A → Result TransformError A
lift_prefix (ok a) = ok a
lift_prefix (err e) = err (prefix e)

-- `.map(trim).filter(|s| !s.is_empty())`
non_empty_parts : List Text → List Text
non_empty_parts [] = []
non_empty_parts (part ∷ parts) =
    let rest = non_empty_parts parts in elim (trim part) [ [] ↦ rest | c ∷ cs ↦ (c ∷ cs) ∷ rest ]

keyed {ℓ} :
    {A : Type ℓ} → TableKey → TransformError → List A → Result TransformError (TableKey × List A)
keyed key e [] = err e
keyed key e (x ∷ xs) = ok (key, x ∷ xs)

unfoldable pub parse_drop_cols_arg : Text → Result TransformError (TableKey × List Text)
unfolding split_table_prefix lift_prefix non_empty_parts keyed split trim
parse_drop_cols_arg arg = do
  r ← lift_prefix (split_table_prefix arg)
  keyed r.0 no_columns (non_empty_parts (split b',' r.1))

-- `old` and `new` of one pair, trimmed; neither may be empty.
rename_pair : Text → Text → Result TransformError (Text × Text)
rename_pair [] new = err empty_name
rename_pair (c ∷ cs) [] = err empty_name
rename_pair (c ∷ cs) (d ∷ ds) = ok (c ∷ cs, d ∷ ds)

parse_pair : Text → Result TransformError (Text × Text)
unfolding rename_pair
parse_pair part = elim (split_once b'=' part) [
  | none ↦ err missing_eq
  | some (old, new) ↦ rename_pair (trim old) (trim new)
]

parse_pairs : List Text → Result TransformError (List (Text × Text))
unfolding parse_pair
parse_pairs [] = ok []
parse_pairs (part ∷ parts) =
    let rest = parse_pairs parts in
    elim (trim part) [
      | [] ↦ rest
      | c ∷ cs ↦ (do pair ← parse_pair (c ∷ cs); pairs ← rest; ok (pair ∷ pairs))
    ]

unfoldable pub parse_rename_arg : Text → Result TransformError (TableKey × List (Text × Text))
unfolding split_table_prefix lift_prefix parse_pairs keyed split trim
parse_rename_arg arg = do
  r ← lift_prefix (split_table_prefix arg)
  pairs ← parse_pairs (split b',' r.1)
  keyed r.0 no_pairs pairs

merge_drops : List Text → ColumnTransforms → Result TransformError ColumnTransforms
merge_drops [] t = ok t
merge_drops (arg ∷ args) t = do r ← parse_drop_cols_arg arg; merge_drops args (merge r.0 r.1 [] t)

merge_renames : List Text → ColumnTransforms → Result TransformError ColumnTransforms
merge_renames [] t = ok t
merge_renames (arg ∷ args) t = do r ← parse_rename_arg arg; merge_renames args (merge r.0 [] r.1 t)

unfoldable pub from_sources :
    (config_drop_cols config_rename cli_drop_cols cli_rename : List Text)
    → Result TransformError ColumnTransforms
unfolding merge_drops merge_renames parse_drop_cols_arg parse_rename_arg merge
from_sources config_drop_cols config_rename cli_drop_cols cli_rename = do
  t ← merge_drops (config_drop_cols ++ cli_drop_cols) []
  merge_renames (config_rename ++ cli_rename) t

-- Whether an entry applies to the event's table.
unfoldable pub applies : TableKey → Text × Text → Bool
applies none table = true
applies (some key) table = pair_eq key table

apply_entries : ColumnTransforms → Text × Text → WalEvent → WalEvent
unfolding applies apply_transforms
apply_entries [] table event = event
apply_entries ((key, transform) ∷ entries) table event = apply_entries entries table (
    if applies key table
    then apply_transforms event transform.drop_cols transform.renames
    else event)

unfoldable pub apply : ColumnTransforms → WalEvent → WalEvent
unfolding apply_entries table_name
apply t event = elim (table_name event) [ none ↦ event | some table ↦ apply_entries t table event ]

no_rules : List Text → List (Text × Text) → Bool
no_rules [] [] = true
no_rules _ _ = false

unfoldable pub is_empty : ColumnTransforms → Bool
unfolding no_rules
is_empty [] = true
is_empty ((key, t) ∷ entries) = no_rules t.drop_cols t.renames && is_empty entries
