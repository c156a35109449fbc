-- ===== src/Replicate/Applier/Sql/Statements.antt =====
-- When an event becomes a statement, and what a Delete or an Update asks for.
use mathlib.Core.List.{append_assoc}
use pg_x.Base.{
  ℕ, ◌≡◌, refl, sym, ap, ◌∙◌, none, some, List, [], ◌∷◌, ◌++◌, map, Bool, true, false,
  if◌then◌else◌, arith,
}
use pg_x.Text.{Text, codes}
use pg_x.Replication.Event.{
  ColVal, text, null, unchanged, Row, WalEvent, begin, commit, relation, insert, update, delete,
  truncate, keepalive,
}
use pg_x.Replicate.Session.Gate.{join}
use pg_x.Replicate.Applier.Sql.{
  SchemaMap, Sql, stmt, skipped, quote_ident, quote_literal, qualified, sendable, insert_sorted,
  sort_columns, clause, insert_sql, gen_insert, update_sql, old_columns, gen_update, delete_sql,
  gen_delete, gen_truncate, gen_sql,
}

abbrev pub is_stmt : Sql → Bool
is_stmt (stmt sql) = true
is_stmt (skipped op reason) = false

-- Some column of the row has a value that the server sent.
abbrev pub has_value : Row → Bool
has_value [] = false
has_value ((c, unchanged) ∷ row) = has_value row
has_value ((c, v) ∷ row) = true

-- What an event needs to become a statement: values to set or insert, and an old row to find by.
abbrev pub applicable : WalEvent → Bool
applicable (insert _ _ _ new) = has_value new
applicable (update _ _ _ none new) = false
applicable (update _ _ _ (some old) new) = if has_value new then has_value old else false
applicable (delete _ _ _ old) = has_value old
applicable (truncate _ _ _ _) = true
applicable _ = false

abbrev filled : Row → Bool
filled [] = false
filled (x ∷ row) = true

filled-sendable : (row : Row) → filled (sendable row) ≡ has_value row
unfolding sendable
filled-sendable [] = refl
filled-sendable ((c, text s) ∷ row) = refl
filled-sendable ((c, null) ∷ row) = refl
filled-sendable ((c, unchanged) ∷ row) = filled-sendable row

filled-insert_sorted : (x : Text × ColVal) (row : Row) → filled (insert_sorted x row) ≡ true
unfolding insert_sorted
filled-insert_sorted x [] = refl
filled-insert_sorted x (y ∷ row) = ground arith

filled-sort_columns : (row : Row) → filled (sort_columns row) ≡ filled row
unfolding sort_columns
filled-sort_columns [] = refl
filled-sort_columns (x ∷ row) = filled-insert_sorted x (sort_columns row)

is_stmt-insert_sql :
    (m : SchemaMap) (s t : Text) (row : Row) → is_stmt (insert_sql m s t row) ≡ filled row
unfolding insert_sql
is_stmt-insert_sql m s t [] = refl
is_stmt-insert_sql m s t (x ∷ row) = refl

is_stmt-delete_sql :
    (m : SchemaMap) (s t : Text) (row : Row) → is_stmt (delete_sql m s t row) ≡ filled row
unfolding delete_sql
is_stmt-delete_sql m s t [] = refl
is_stmt-delete_sql m s t (x ∷ row) = refl

is_stmt-update_sql :
    (m : SchemaMap) (s t : Text) (set old : Row)
    → is_stmt (update_sql m s t set old) ≡ (if filled set then filled old else false)
unfolding update_sql
is_stmt-update_sql m s t [] old = refl
is_stmt-update_sql m s t (x ∷ set) [] = refl
is_stmt-update_sql m s t (x ∷ set) (y ∷ old) = refl

is_stmt-gen_sql : (m : SchemaMap) (event : WalEvent) → is_stmt (gen_sql m event) ≡ applicable event
unfolding gen_sql gen_insert gen_update gen_delete gen_truncate old_columns
is_stmt-gen_sql m (insert r s t new) =
    is_stmt-insert_sql m s t (sort_columns (sendable new))
    ∙ filled-sort_columns (sendable new)
    ∙ filled-sendable new
is_stmt-gen_sql m (update r s t none new) =
    ground (arith, is_stmt-update_sql m s t (sort_columns (sendable new)) [])
is_stmt-gen_sql m (update r s t (some old) new) = ground (
  arith,
  is_stmt-update_sql m s t (sort_columns (sendable new)) (sendable old),
  filled-sort_columns (sendable new),
  filled-sendable new,
  filled-sendable old,
)
is_stmt-gen_sql m (delete r s t old) = is_stmt-delete_sql m s t (sendable old) ∙ filled-sendable old
is_stmt-gen_sql m (truncate r ts c rs) = refl
is_stmt-gen_sql m (begin _ _ _) = refl
is_stmt-gen_sql m (commit _ _ _) = refl
is_stmt-gen_sql m (relation _ _ _ _) = refl
is_stmt-gen_sql m (keepalive _ _) = refl

-- The conditions on an old row: an equation for each column but the Unchanged, for a
-- null column the equation with NULL.
abbrev pub conditions : Row → List Text
conditions [] = []
conditions ((c, text s) ∷ row) =
    (quote_ident c ++ (codes " = " ++ quote_literal s)) ∷ conditions row
conditions ((c, null) ∷ row) = (quote_ident c ++ codes " = NULL") ∷ conditions row
conditions ((c, unchanged) ∷ row) = conditions row

map-clause-sendable : (row : Row) → map clause (sendable row) ≡ conditions row
unfolding sendable clause
map-clause-sendable [] = refl
map-clause-sendable ((c, text s) ∷ row) = ap (λ r. clause (c, text s) ∷ r) (map-clause-sendable row)
map-clause-sendable ((c, null) ∷ row) = ap (λ r. clause (c, null) ∷ r) (map-clause-sendable row)
map-clause-sendable ((c, unchanged) ∷ row) = map-clause-sendable row

-- The end of a statement asks for every condition of the old row, and there is at least one.
abbrev AsksFor : Row → (before sql : Text) → Type 0
AsksFor old before sql =
    (first : Text) × (others : List Text) × (conditions old ≡ first ∷ others)
    × (sql ≡ before ++ (codes " WHERE " ++ join (codes " AND ") (first ∷ others)))

abbrev pub IsGuarded : SchemaMap → WalEvent → Sql → Type 0
IsGuarded m event (skipped op reason) = Unit
IsGuarded m (delete _ s t old) (stmt sql) =
    AsksFor old (codes "DELETE FROM " ++ qualified m s t) sql
IsGuarded m (update _ s t none new) (stmt sql) = ⊥
IsGuarded m (update _ s t (some old) new) (stmt sql) =
    (set : Text) × AsksFor old (codes "UPDATE " ++ (qualified m s t ++ (codes " SET " ++ set))) sql
IsGuarded m _ (stmt sql) = Unit

delete_sql-IsGuarded :
    (m : SchemaMap) (r : ℕ) (s t : Text) (old row : Row)
    → map clause row ≡ conditions old
    → IsGuarded m (delete r s t old) (delete_sql m s t row)
unfolding delete_sql
delete_sql-IsGuarded m r s t old [] h = tt
delete_sql-IsGuarded m r s t old (x ∷ row) h =
    (clause x, map clause row, sym h, sym (append_assoc (codes "DELETE FROM ") (qualified m s t) _))

regroup : (a b c d e : Text) → a ++ (b ++ (c ++ (d ++ e))) ≡ (a ++ (b ++ (c ++ d))) ++ e
regroup a b c d e = simp append_assoc

update_sql-IsGuarded :
    (m : SchemaMap) (r : ℕ) (s t : Text) (old new set row : Row)
    → map clause row ≡ conditions old
    → IsGuarded m (update r s t (some old) new) (update_sql m s t set row)
unfolding update_sql
update_sql-IsGuarded m r s t old new [] row h = tt
update_sql-IsGuarded m r s t old new (x ∷ set) [] h = tt
update_sql-IsGuarded m r s t old new (x ∷ set) (y ∷ row) h = (
  join (codes ", ") (map clause (x ∷ set)),
  (
    clause y,
    map clause row,
    sym h,
    regroup (codes "UPDATE ") (qualified m s t) (codes " SET ") _ _,
  ),
)

unfound_update :
    (m : SchemaMap) (r : ℕ) (s t : Text) (new set : Row)
    → IsGuarded m (update r s t none new) (update_sql m s t set [])
unfolding update_sql
unfound_update m r s t new [] = tt
unfound_update m r s t new (x ∷ set) = tt

insert_sql-IsGuarded :
    (m : SchemaMap) (r : ℕ) (s t : Text) (new row : Row)
    → IsGuarded m (insert r s t new) (insert_sql m s t row)
unfolding insert_sql
insert_sql-IsGuarded m r s t new [] = tt
insert_sql-IsGuarded m r s t new (x ∷ row) = tt

guarded : (m : SchemaMap) (event : WalEvent) → IsGuarded m event (gen_sql m event)
unfolding gen_sql gen_insert gen_update gen_delete gen_truncate old_columns
guarded m (insert r s t new) = insert_sql-IsGuarded m r s t new (sort_columns (sendable new))
guarded m (update r s t none new) = unfound_update m r s t new (sort_columns (sendable new))
guarded m (update r s t (some old) new) =
    update_sql-IsGuarded m r s t old new (sort_columns (sendable new)) (sendable old)
      (map-clause-sendable old)
guarded m (delete r s t old) =
    delete_sql-IsGuarded m r s t old (sendable old) (map-clause-sendable old)
guarded m (truncate r ts c rs) = tt
guarded m (begin _ _ _) = tt
guarded m (commit _ _ _) = tt
guarded m (relation _ _ _ _) = tt
guarded m (keepalive _ _) = tt

-- An event becomes a statement exactly where it can be applied: an Insert with a value that was sent,
-- an Update with one and an old row that has one too, a Delete whose old row has one, and every
-- Truncate; all else is skipped. The statement of a Delete or an Update is on the mapped table and
-- ends in a WHERE clause with every condition of the old row, of which there is at least one; for a
-- null column the condition is `= NULL`.
pub gen_sql-IsGuarded :
    (m : SchemaMap) (event : WalEvent)
    → (is_stmt (gen_sql m event) ≡ applicable event) × IsGuarded m event (gen_sql m event)
gen_sql-IsGuarded m event = (is_stmt-gen_sql m event, guarded m event)
