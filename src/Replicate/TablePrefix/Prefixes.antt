-- ===== src/Replicate/TablePrefix/Prefixes.antt =====
-- Which texts `split_table_prefix` takes apart, and how.
use pg_x.Base.{ℕ, ◌≡◌, ◌≢◌, refl, none, some, [], ◌∷◌, ◌++◌, ok, err, All, arith}
use pg_x.Text.{Text}
use pg_x.Text.Split.{split_once}
use pg_x.Text.Split.Found.{split_once_absent, split_once_found}
use pg_x.Replicate.TablePrefix.{empty_prefix, not_qualified, qualify, split_table_prefix}

qualify_lem :
    (prefix rest : Text) (key : Text × Text)
    → split_once b'.' prefix ≡ some key
    → qualify prefix rest ≡ ok (some key, rest)
unfolding qualify split_once
qualify_lem [] rest key h = cc
qualify_lem (c ∷ cs) rest key h = ground (arith, h)

qualify_unqualified :
    (c : ℕ) (cs rest : Text)
    → split_once b'.' (c ∷ cs) ≡ none
    → qualify (c ∷ cs) rest ≡ err not_qualified
unfolding qualify
qualify_unqualified c cs rest h = ground (arith, h)

-- `schema.table:rest`, with no dot in the schema and no colon in the schema and the table, is
-- taken apart into its three parts, whatever `rest` holds.
split_table_prefix_qualified :
    (schema table rest : Text)
    → All (λ c. c ≢ b'.') schema
    → All (λ c. c ≢ b':') (schema ++ b'.' ∷ table)
    → split_table_prefix ((schema ++ b'.' ∷ table) ++ b':' ∷ rest) ≡ ok (some (schema, table), rest)
unfolding split_table_prefix
split_table_prefix_qualified schema table rest h k = ground (
  arith,
  split_once_found b':' (schema ++ b'.' ∷ table) rest k,
  qualify_lem (schema ++ b'.' ∷ table) rest (schema, table) (split_once_found b'.' schema table h),
)

-- A text without a colon is a global rule, as a whole.
pub split_table_prefix_global :
    (arg : Text) → All (λ c. c ≢ b':') arg → split_table_prefix arg ≡ ok (none, arg)
unfolding split_table_prefix
split_table_prefix_global arg h = ground (arith, split_once_absent b':' arg h)

-- A prefix with no dot (and no colon) is refused: as empty where nothing stands before the colon,
-- else as not qualified.
split_table_prefix_refuses :
    (prefix rest : Text)
    → All (λ c. c ≢ b'.') prefix
    → All (λ c. c ≢ b':') prefix
    → split_table_prefix (prefix ++ b':' ∷ rest)
      ≡ err (elim prefix [ [] ↦ empty_prefix | c ∷ cs ↦ not_qualified ])
unfolding split_table_prefix split_once qualify
split_table_prefix_refuses [] rest h k = refl
split_table_prefix_refuses (c ∷ cs) rest h k = ground (
  arith,
  split_once_found b':' (c ∷ cs) rest k,
  qualify_unqualified c cs rest (split_once_absent b'.' (c ∷ cs) h),
)
