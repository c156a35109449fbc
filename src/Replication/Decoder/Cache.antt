-- ===== src/Replication/Decoder/Cache.antt =====
-- The surroundings of decoding in replication/decoder.rs, on any bytes: the buffer's bounds and the
-- relation cache.
use mathlib.Core.Path.{subst}
use pg_x.Base.{
  ℕ, zero, suc, ◌+◌, ◌≤◌, ◌≡◌, refl, Option, none, some, List, [], ◌∷◌, length, Result, ok, err,
}
use Prim.Native.Nat.{zero-le}
use pg_x.Map
use pg_x.Map.{nat_eq}
use pg_x.Text.{Bytes, Text}
use pg_x.Replication.Event.{WalEvent, Row, ColumnDef, relation}
use pg_x.Replication.Decoder.Buf.{Buf, DecodeError, new, read_u8, read_u16, read_u32, read_cstring}
use pg_x.Replication.Decoder.Tuple.{
  read_column, read_columns, read_value, read_values, decode_tuple,
}
use pg_x.Replication.Decoder.Message.{
  RelationCache, read_rels, decode_truncate, decode_insert, decode_old, decode_update,
  decode_delete,
}
use pg_x.Replication.Decoder.Dispatch.{
  decode_relation, decode_tagged, dispatch, event_read, decode_pgoutput,
}
use pg_x.Replication.Decoder.Keeps.{
  Outcome, Keeps, borrowing-Keeps, bind-Keeps, modify-Keeps, give-Keeps, if-Keeps, fail-Keeps,
}
use pg_x.Replication.Decoder.Yields.{
  Any, Yields, Yields-pure, Yields-fail, Yields-if, Yields-bind, read_u8-Yields, read_u16-Yields,
  read_u32-Yields, read_i32-Yields, read_bytes-Yields, read_cstring-Yields,
}

-- The cache behind a message: as before it, or, for a Relation event, with that relation entered.
abbrev pub CacheAfter : RelationCache → Option WalEvent → RelationCache → Type 0
CacheAfter cache (some (relation rel_id schema table columns)) cache' =
    cache' ≡ Map.insert rel_id (record { schema = schema; table = table; columns = columns }) cache
CacheAfter cache _ cache' = cache' ≡ cache

ruleset yields = (
  Yields-pure, Yields-fail, Yields-if, Yields-bind, read_u8-Yields, read_u16-Yields,
  read_u32-Yields, read_i32-Yields, read_bytes-Yields, read_cstring-Yields,
)

read_column-Yields : Yields Any read_column
unfolding read_column
read_column-Yields = search (yields, tt) depth 9

read_columns-Yields : (n : ℕ) → Yields Any (read_columns n)
unfolding read_columns
read_columns-Yields zero = Yields-pure [] tt
read_columns-Yields (suc n) =
    Yields-bind _ _ read_column-Yields
      (λ c. Yields-bind _ _ (read_columns-Yields n) (λ cs. Yields-pure (c ∷ cs) tt))

module _ (hex_encode : Bytes → Text) where
  read_value-Yields : (kind : ℕ) → Yields Any (read_value hex_encode kind)
  unfolding read_value
  read_value-Yields kind = search (yields, tt) depth 9

  read_values-Yields :
      (columns : List ColumnDef) (n i : ℕ) (row : Row)
      → Yields Any (read_values hex_encode columns n i row)
  unfolding read_values
  read_values-Yields columns zero i row = Yields-pure row tt
  read_values-Yields columns (suc n) i row = Yields-bind _ _ read_u8-Yields (λ kind.
      Yields-bind _ _ (read_value-Yields kind) (λ v. read_values-Yields columns n (i + 1) _))

  decode_tuple-Yields : (columns : List ColumnDef) → Yields Any (decode_tuple hex_encode columns)
  unfolding decode_tuple
  decode_tuple-Yields columns = search (yields, read_values-Yields)

  decode_old-Yields :
      (columns : List ColumnDef) (flag : ℕ) → Yields Any (decode_old hex_encode columns flag)
  unfolding decode_old
  decode_old-Yields columns flag = search (yields, decode_tuple-Yields, tt) depth 8

read_rels-Yields :
    (cache : RelationCache) (n : ℕ) (rel_ids : List ℕ) (tables : List Text)
    → Yields Any (read_rels cache n rel_ids tables)
unfolding read_rels
read_rels-Yields cache zero rel_ids tables = Yields-pure _ tt
read_rels-Yields cache (suc n) rel_ids tables =
    Yields-bind _ _ read_u32-Yields (λ rid. read_rels-Yields cache n _ _)

module _ (hex_encode : Bytes → Text) (cache : RelationCache) where
  -- The events that leave the cache.
  Left : Option WalEvent → Type 0
  Left event = CacheAfter cache event cache

  decode_insert-Yields : Yields Left (decode_insert hex_encode cache)
  unfolding decode_insert Left
  decode_insert-Yields = search (yields, decode_tuple-Yields) depth 10

  decode_update-Yields : Yields Left (decode_update hex_encode cache)
  unfolding decode_update Left
  decode_update-Yields = search (yields, decode_tuple-Yields, decode_old-Yields) depth 12

  decode_delete-Yields : Yields Left (decode_delete hex_encode cache)
  unfolding decode_delete Left
  decode_delete-Yields = search (yields, decode_tuple-Yields) depth 10

  decode_truncate-Yields : Yields Left (decode_truncate cache)
  unfolding decode_truncate Left
  decode_truncate-Yields = search (yields, read_rels-Yields) depth 10

  decode_relation-Keeps : Keeps cache (CacheAfter cache) decode_relation
  unfolding decode_relation
  decode_relation-Keeps = bind-Keeps cache P read_u32 _ read_u32-Yields λ rel_id.
      bind-Keeps cache P read_cstring _ read_cstring-Yields λ schema.
        bind-Keeps cache P read_cstring _ read_cstring-Yields λ table.
          bind-Keeps cache P read_u8 _ read_u8-Yields λ replica_identity.
            bind-Keeps cache P read_u16 _ read_u16-Yields λ ncols.
              bind-Keeps cache P (read_columns ncols) _ (read_columns-Yields ncols)
                λ columns. modify-Keeps cache P _ _ refl
    where
      P : Option WalEvent → RelationCache → Type 0
      P = CacheAfter cache

  decode_tagged-Keeps : (tag : ℕ) → Keeps cache (CacheAfter cache) (decode_tagged hex_encode tag)
  unfolding decode_tagged Left
  decode_tagged-Keeps tag =
      let P = CacheAfter cache in
      if-Keeps cache P _ _ _ decode_relation-Keeps (
        if-Keeps cache P _ _ _
          (borrowing-Keeps cache P (decode_insert hex_encode) decode_insert-Yields)
          (if-Keeps cache P _ _ _
            (borrowing-Keeps cache P (decode_update hex_encode) decode_update-Yields)
            (if-Keeps cache P _ _ _
              (borrowing-Keeps cache P (decode_delete hex_encode) decode_delete-Yields)
              (if-Keeps cache P _ _ _
                (borrowing-Keeps cache P decode_truncate decode_truncate-Yields)
                (if-Keeps cache P _ _ _ (give-Keeps cache P none refl)
                  (fail-Keeps cache P _ (Yields-fail _)))))))

  dispatch-Keeps : Keeps cache (CacheAfter cache) (dispatch hex_encode)
  unfolding dispatch
  dispatch-Keeps = bind-Keeps cache (CacheAfter cache) read_u8 _ read_u8-Yields decode_tagged-Keeps

  -- Whatever the bytes, a message that is decoded was read within its buffer: the position behind it
  -- is at most the buffer's length, and the relation cache is changed by a Relation event alone.
  pub dispatch_in_bounds :
      (bytes : Bytes) {v : Option WalEvent} {b' : Buf} {cache' : RelationCache}
      → dispatch hex_encode cache (new bytes) ≡ (ok (v, b'), cache')
      → CacheAfter cache v cache' × (b'.pos ≤ length bytes)
  unfolding new
  dispatch_in_bounds bytes e =
      let (after, forward) =
        subst (Outcome cache (new bytes) (CacheAfter cache)) e
          (dispatch-Keeps.at (new bytes) zero-le) in
      (after, forward.within)

  failed :
      (b : Buf) (x : DecodeError) (r : Result DecodeError (Option WalEvent × Buf) × RelationCache)
      → Outcome cache b (CacheAfter cache) r
      → event_read hex_encode r.0 ≡ err x
      → r.1 ≡ cache
  failed b x (ok (v, b'), cache') h e = cc
  failed b x (err y, cache') h e = h

  -- Whatever the bytes, and wherever in a message the decoding fails, the relation cache is as it was:
  -- a Relation message that breaks off enters nothing.
  pub decode_pgoutput-err :
      (bytes : Bytes) (x : DecodeError)
      → (decode_pgoutput hex_encode bytes cache).0 ≡ err x
      → (decode_pgoutput hex_encode bytes cache).1 ≡ cache
  unfolding decode_pgoutput new
  decode_pgoutput-err bytes x e =
      failed (new bytes) x (dispatch hex_encode cache (new bytes))
        (dispatch-Keeps.at (new bytes) zero-le) e
