-- ===== src/Replication/Decoder/RoundTrip.antt =====
-- `decode_pgoutput` of replication/decoder.rs on the messages of the format.
use pg_x.Base.{
  ℕ, ◌+◌, ◌/◌, ◌<◌, ◌≡◌, refl, inl, inr, Bool, true, false, none, List, [], ◌∷◌, ◌++◌, map,
  if◌then◌else◌, length, All, ok,
}
use pg_x.Map.{text_key}
use pg_x.Text.{Bytes, Text}
use pg_x.Word.{u32_mod}
use pg_x.Replication.Event.{truncate}
use pg_x.Replication.Decoder.Buf.{new}
use pg_x.Replication.Decoder.Tuple.{bit0}
use pg_x.Replication.Decoder.Message.{
  RelationCache, info_of, truncated_name, read_rels, decode_truncate, decode_insert, decode_update,
  decode_delete,
}
use pg_x.Replication.Decoder.Caching.{borrowing, give, modify}
use pg_x.Replication.Decoder.Caching
use pg_x.Replication.Decoder.Dispatch.{decode_relation, decode_tagged, dispatch, decode_pgoutput}
use pg_x.Replication.Decoder.DecodesFrom.{
  DecodesFrom, DecodesFrom-borrowing, DecodesFrom-bind, DecodesFrom-last,
}
use pg_x.Replication.Decoder.Decodes.{
  Decodes, Decodes-bind, Decodes-map, Decodes-pure, Decodes-after-pure, read_u8-Decodes,
  read_u16-Decodes, read_u32-Decodes, read_cstring-Decodes,
}
use pg_x.Replication.Decoder.Wire.{
  relation_message, insert_message, update_message, update_old_message, delete_message,
  truncate_message, skipped_message, Message, concat_map, encode, IsMessage, meaning, byte, u32,
}
use mathlib.Core.List.{append-nil, append_assoc}
use Prim.Native.Nat.{zero-le}
use pg_x.Replication.Decoder.Tuples.{read_columns-Decodes, decode_tuple-Decodes, decode_old-Decodes}

read_rels-Decodes :
    (cache : RelationCache) (rids : List ℕ) (rel_ids : List ℕ) (tables : List Text)
    → All (λ r. r < u32_mod) rids
    → Decodes
        (read_rels cache (length rids) rel_ids tables)
        (concat_map u32 rids)
        (rel_ids ++ rids, tables ++ map (truncated_name cache) rids)
unfolding read_rels
read_rels-Decodes cache [] rel_ids tables h =
    rw (append-nil rel_ids, append-nil tables) (Decodes-pure _)
read_rels-Decodes cache (r ∷ rids) rel_ids tables h =
    let ih =
      read_rels-Decodes cache rids (rel_ids ++ r ∷ []) (tables ++ truncated_name cache r ∷ [])
        h.1 in
    Decodes-bind _ (read_u32-Decodes r h.0) (rw (append_assoc rel_ids, append_assoc tables) at ih)

truncate_options :
    (cascade restart_seqs : Bool) {ids : List ℕ} {tables : List Text}
    → truncate ids tables
        (bit0 ((if restart_seqs then 2 else 0) + (if cascade then 1 else 0)))
        (bit0 (((if restart_seqs then 2 else 0) + (if cascade then 1 else 0)) / 2))
      ≡ truncate ids tables cascade restart_seqs
truncate_options true true = refl
truncate_options true false = refl
truncate_options false true = refl
truncate_options false false = refl

module _ (hex_encode : Bytes → Text) (cache : RelationCache) where
  -- Origin, Type and Message: nothing is read behind the tag.
  skip-DecodesFrom :
      (tag : ℕ)
      → decode_tagged hex_encode tag ≡ give none
      → DecodesFrom (dispatch hex_encode) cache (byte tag) none cache
  unfolding dispatch give
  skip-DecodesFrom tag e =
      DecodesFrom-last (decode_tagged hex_encode) (read_u8-Decodes tag) (λ b. rw e refl)

  dispatch-DecodesFrom :
      (m : Message)
      → IsMessage m
      → DecodesFrom
          (dispatch hex_encode)
          cache
          (encode m)
          (meaning hex_encode cache m).0
          (meaning hex_encode cache m).1
  unfolding dispatch decode_tagged decode_relation decode_insert decode_update decode_delete
      decode_truncate Caching.◌>>=◌ give modify
  dispatch-DecodesFrom (relation_message rel_id schema table identity columns) h =
      DecodesFrom-bind _ (read_u8-Decodes b'R') (
        DecodesFrom-bind _ (read_u32-Decodes rel_id h.0) (
          DecodesFrom-bind _ (read_cstring-Decodes h.1) (
            DecodesFrom-bind _ (read_cstring-Decodes h.2) (
              DecodesFrom-bind _ (read_u8-Decodes identity) (
                DecodesFrom-bind _ (read_u16-Decodes (length columns) h.3)
                  (DecodesFrom-last _ (read_columns-Decodes columns h.4) (λ b. refl)))))))
  dispatch-DecodesFrom (insert_message rel_id flag new) h =
      DecodesFrom-bind _ (read_u8-Decodes b'I') (
        DecodesFrom-borrowing (decode_insert hex_encode) (
          Decodes-bind _ (read_u32-Decodes rel_id h.0) (
            Decodes-bind _ (read_u8-Decodes flag) (
              Decodes-map _
                (decode_tuple-Decodes hex_encode (info_of cache rel_id).columns new h.1)))))
  dispatch-DecodesFrom (update_message rel_id new) h = DecodesFrom-bind _ (read_u8-Decodes b'U') (
      DecodesFrom-borrowing (decode_update hex_encode) (
        Decodes-bind _ (read_u32-Decodes rel_id h.0) (
          Decodes-bind _ (read_u8-Decodes b'N') (
            Decodes-after-pure none _ (
              Decodes-map _
                (decode_tuple-Decodes hex_encode (info_of cache rel_id).columns new h.1))))))
  dispatch-DecodesFrom (update_old_message rel_id flag new_flag old new) h =
      DecodesFrom-bind _ (read_u8-Decodes b'U') (
        DecodesFrom-borrowing (decode_update hex_encode) (
          Decodes-bind _ (read_u32-Decodes rel_id h.0) (
            Decodes-bind _ (read_u8-Decodes flag) (
              Decodes-bind _
                (decode_old-Decodes hex_encode (info_of cache rel_id).columns flag new_flag old h.1
                  h.2)
                (Decodes-map _
                  (decode_tuple-Decodes hex_encode (info_of cache rel_id).columns new h.3))))))
  dispatch-DecodesFrom (delete_message rel_id flag old) h =
      DecodesFrom-bind _ (read_u8-Decodes b'D') (
        DecodesFrom-borrowing (decode_delete hex_encode) (
          Decodes-bind _ (read_u32-Decodes rel_id h.0) (
            Decodes-bind _ (read_u8-Decodes flag) (
              Decodes-map _
                (decode_tuple-Decodes hex_encode (info_of cache rel_id).columns old h.1)))))
  dispatch-DecodesFrom (truncate_message cascade restart_seqs rel_ids) h =
      rw (← truncate_options cascade restart_seqs) (
        DecodesFrom-bind _ (read_u8-Decodes b'T') (
          DecodesFrom-borrowing decode_truncate (
            Decodes-bind _ (read_u32-Decodes (length rel_ids) h.0) (
              Decodes-bind _ (read_u8-Decodes _)
                (Decodes-map _ (read_rels-Decodes cache rel_ids [] [] h.1))))))
  dispatch-DecodesFrom (skipped_message tag) (inl e) = skip-DecodesFrom tag (rw e)
  dispatch-DecodesFrom (skipped_message tag) (inr (inl e)) = skip-DecodesFrom tag (rw e)
  dispatch-DecodesFrom (skipped_message tag) (inr (inr e)) = skip-DecodesFrom tag (rw e)

  -- A message that fits the format is decoded to what it means, whatever follows it in the buffer:
  -- the event (none for Origin, Type and Message), and the relation cache with a Relation entered.
  pub decode_pgoutput-encode :
      (m : Message) (trailing : Bytes)
      → IsMessage m
      → decode_pgoutput hex_encode (encode m ++ trailing) cache
        ≡ (ok (meaning hex_encode cache m).0, (meaning hex_encode cache m).1)
  unfolding decode_pgoutput
  decode_pgoutput-encode m trailing h = rw (
    (dispatch-DecodesFrom m h).at (new (encode m ++ trailing)) trailing
        (record { within = zero-le; ahead = refl }),
    decode_pgoutput,
  )
