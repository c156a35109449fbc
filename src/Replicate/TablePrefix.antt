-- ===== src/Replicate/TablePrefix.antt =====
-- commands/replicate/table_prefix.rs: the prefix `schema.table:` of filters and transforms.
pub mod Prefixes
use pg_x.Base.{Option, none, some, [], ◌∷◌, Result, ok, err}
use pg_x.Map.{text_eq}
use pg_x.Text.{Text}
use pg_x.Text.Split.{split_once}

-- `none` marks a global rule.
abbrev pub TableKey : Type 0
TableKey = Option (Text × Text)

pub data PrefixError : Type 0 where
  empty_prefix not_qualified : PrefixError

qualify : Text → Text → Result PrefixError (TableKey × Text)
qualify [] rest = err empty_prefix
qualify (c ∷ cs) rest = elim (split_once b'.' (c ∷ cs)) [
  | none ↦ err not_qualified
  | some key ↦ ok (some key, rest)
]

unfoldable pub split_table_prefix : Text → Result PrefixError (TableKey × Text)
unfolding split_once qualify
split_table_prefix arg = elim (split_once b':' arg) [
  | none ↦ ok (none, arg)
  | some (prefix, rest) ↦ qualify prefix rest
]
