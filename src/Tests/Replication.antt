-- ===== src/Tests/Replication.antt =====
-- Runs of the decoder, of LSNs and of the client's progress.
use pg_x.Base.{
  ◌≡◌, ◌≤◌, refl, ◌+◌, ◌*◌, ◌^◌, ◌/◌, ◌%◌, true, none, some, List, [], ◌∷◌, ◌++◌, ok, err, arith,
  length, if◌then◌else◌,
}
use pg_x.Base.Int.{negsuc}
use pg_x.Map
use pg_x.Map.{nat_eq, text_key}
use pg_x.Text.{Bytes, Text, codes}
use pg_x.Text.Utf8.{is_utf8, from_utf8_lossy}
use pg_x.Text.Number.{digit, print_radix}
use pg_x.Word.{from_be_bytes, to_be_bytes}
use pg_x.Replication.Decoder.Reader
use pg_x.Replication.Lsn.{parse, to_text, missing_slash, bad_high}
use pg_x.Replication.Lsn.RoundTrip.{parse-to_text}
use pg_x.Replication.Event.{text, null, Row, relation, insert, transform_row}
use pg_x.Replication.Event.Transformed.{
  or_else, incoming, undropped, listed, old_names, get-transform_row,
}
use pg_x.Replication.Client.{stores}
use pg_x.Replication.Client.Exchange.{StoreMeans, stores-StoreMeans}
use pg_x.Replication.Decoder.Buf
use pg_x.Replication.Decoder.Caching
use pg_x.Replication.Decoder.Buf.{new}
use pg_x.Replication.Decoder.Message.{RelationInfo, RelationCache}
use pg_x.Replication.Decoder.Dispatch.{dispatch, decode_pgoutput}
use pg_x.Replication.Decoder.Wire.{
  text_value, WireColumn, Message, relation_message, insert_message, encode, IsMessage,
}
use pg_x.Replication.Decoder.RoundTrip.{decode_pgoutput-encode}
use pg_x.Replication.Decoder.Cache.{CacheAfter, decode_pgoutput-err, dispatch_in_bounds}

-- What `hex::encode` does.
abbrev hex_encode : Bytes → Text
hex_encode [] = []
hex_encode (b ∷ bs) = digit (b / 16) ∷ digit (b % 16) ∷ hex_encode bs

abbrev id_column : WireColumn
id_column = record {
  is_key = true;
  other_flags = 0;
  name = codes "id";
  type_id = 23;
  type_modifier = negsuc 0;
}

abbrev users : Message
users = relation_message 7 (codes "public") (codes "users") b'd' (id_column ∷ [])

abbrev cached : RelationInfo
cached = record {
  schema = codes "public";
  table = codes "users";
  columns =
      record { name = codes "id"; is_key = true; type_id = 23; type_modifier = negsuc 0 } ∷ [];
}

abbrev cache : RelationCache
cache = (7, cached) ∷ []

abbrev row_message : Message
row_message = insert_message 7 b'N' (text_value (codes "42") ∷ [])

users-IsMessage : IsMessage users
unfolding is_utf8
users-IsMessage = (
  omega arith,
  record { no_zero = ground arith; utf8 = refl },
  record { no_zero = ground arith; utf8 = refl },
  omega arith,
  (
    record {
      name_ok = record { no_zero = ground arith; utf8 = refl };
      type_id_ok = omega arith;
      modifier_ok = omega arith;
    },
    tt,
  ),
)

decode_pgoutput-encode_example :
    decode_pgoutput hex_encode (encode users ++ 0 ∷ []) []
    ≡ (ok (some (relation 7 (codes "public") (codes "users") cached.columns)), cache)
unfolding Map.insert
decode_pgoutput-encode_example = decode_pgoutput-encode hex_encode [] users (0 ∷ []) users-IsMessage

-- The whole byte sequence of an Insert, written out.
insert_bytes_example :
    decode_pgoutput hex_encode
      (b'I' ∷ 0 ∷ 0 ∷ 0 ∷ 7 ∷ b'N' ∷ 0 ∷ 1 ∷ b't' ∷ 0 ∷ 0 ∷ 0 ∷ 2 ∷ b'4' ∷ b'2' ∷ [])
      cache
    ≡ (
      ok (some (insert 7 (codes "public") (codes "users") ((codes "id", text (codes "42")) ∷ []))),
      cache,
    )
unfolding decode_pgoutput dispatch Caching.◌>>=◌ Caching.reading Caching.borrowing Reader.◌>>=◌
    Buf.read_u8 Buf.read_u32 Buf.read_u16 from_be_bytes Buf.read_bytes Reader.pure Map.get
    Map.insert from_utf8_lossy
insert_bytes_example = refl

-- A Relation message for a known relation that breaks off before its only column.
abbrev broken_off : Bytes
broken_off = b'R' ∷ 0 ∷ 0 ∷ 0 ∷ 7 ∷ b'p' ∷ 0 ∷ b'u' ∷ 0 ∷ b'd' ∷ 0 ∷ 1 ∷ []

decode_pgoutput-err_example : (decode_pgoutput hex_encode broken_off cache).1 ≡ cache
unfolding decode_pgoutput dispatch Caching.◌>>=◌ Caching.reading Caching.borrowing Reader.◌>>=◌
    Buf.read_u8 Buf.read_u32 Buf.read_u16 Buf.read_cstring from_be_bytes is_utf8 Reader.pure
decode_pgoutput-err_example = decode_pgoutput-err hex_encode cache broken_off Buf.end_of_buffer refl

dispatch_in_bounds_example :
    CacheAfter cache
      (some (insert 7 (codes "public") (codes "users") ((codes "id", text (codes "42")) ∷ [])))
      cache
    × (15 ≤ length (encode row_message))
unfolding dispatch Caching.◌>>=◌ Caching.reading Caching.borrowing Reader.◌>>=◌ Buf.read_u8 new
    to_be_bytes Buf.read_u32 Buf.read_u16 from_be_bytes Buf.read_bytes Reader.pure Map.get
    Map.insert from_utf8_lossy
dispatch_in_bounds_example =
    dispatch_in_bounds hex_encode cache (encode row_message)
      {b' = record { bytes = encode row_message; pos = 15 }} refl

parse-to_text_example :
    parse (to_text (0x16 * 2 ^ 32 + 0xB374D848)) ≡ ok (0x16 * 2 ^ 32 + 0xB374D848)
parse-to_text_example = parse-to_text (0x16 * 2 ^ 32 + 0xB374D848) (omega arith)

-- The two error paths, and a printed position.
parse_missing_slash : parse (codes "nope") ≡ err missing_slash
unfolding parse
parse_missing_slash = refl

parse_bad_high : parse (codes "xyz/0") ≡ err bad_high
unfolding parse
parse_bad_high = refl

to_text_example : to_text (0x16 * 2 ^ 32 + 0xB374D848) ≡ codes "16/B374D848"
unfolding to_text print_radix
to_text_example = refl

-- Two columns that swap their names, beside a dropped one.
abbrev row : Row
row = (codes "a", text (codes "1")) ∷ (codes "b", text (codes "2")) ∷ (codes "c", null) ∷ []

abbrev swap : List (Text × Text)
swap = (codes "a", codes "b") ∷ (codes "b", codes "a") ∷ []

get-transform_row_example :
    Map.get (codes "a") (transform_row (codes "c" ∷ []) swap row)
    ≡ or_else (incoming swap (undropped (codes "c" ∷ []) row) (codes "a")) (
        if listed (old_names swap) (codes "a")
        then none
        else undropped (codes "c" ∷ []) row (codes "a"))
get-transform_row_example = get-transform_row (codes "c" ∷ []) swap row (codes "a") refl

swapped : Map.get (codes "a") (transform_row (codes "c" ∷ []) swap row) ≡ some (text (codes "2"))
unfolding transform_row Map.get Map.remove Map.insert
swapped = refl

stores-StoreMeans_example : StoreMeans 50 (10 ∷ 20 ∷ 30 ∷ []) (stores 50 10 (20 ∷ 30 ∷ []))
stores-StoreMeans_example = stores-StoreMeans 50 10 (20 ∷ 30 ∷ [])
