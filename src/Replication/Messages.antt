-- ===== src/Replication/Messages.antt =====
-- replication/messages.rs: the payloads of server messages before and beside the stream.
pub mod RoundTrip
use pg_x.Base.{
  ℕ, zero, suc, Option, none, some, List, [], ◌∷◌, ◌++◌, ◌==◌, ltb, if◌then◌else◌, length, Result,
  ok, err,
}
use pg_x.Base.Int.{ℤ}
use pg_x.Replication.Error.{ReplError, protocol, auth_too_short}
use pg_x.Replication.BytesCrate.{BytesCrate}
use pg_x.Text.{Bytes, Text, codes}
use pg_x.Text.Utf8.{from_utf8_lossy}
use pg_x.Text.Split.{split_once}

-- The two fields of an ErrorResponse that are kept, each with its last value.
pub record ErrorFields : Type 0 where
  pub message : Option Text
  pub code : Option Text

unfoldable pub keep_field : ℕ → Text → ErrorFields → ErrorFields
keep_field field s kept =
    if field == b'M'
    then record kept { message = some s }
    else if field == b'C'
    then record kept { code = some s }
    else kept

-- The loop of `parse_error_response`; a round takes at least two bytes, so that the payload's length
-- is fuel enough.
unfoldable pub error_fields : ℕ → Bytes → ErrorFields → ErrorFields
unfolding keep_field from_utf8_lossy split_once
error_fields zero b kept = kept
error_fields (suc f) [] kept = kept
error_fields (suc f) (field ∷ b) kept = if field == 0 then kept else elim (split_once 0 b) [
  | none ↦ kept
  | some (s, rest) ↦ error_fields f rest (keep_field field (from_utf8_lossy s) kept)
]

unfoldable pub describe : ErrorFields → Text
describe kept = elim kept.message [
  | some m ↦ elim kept.code [ some c ↦ m ++ (codes " (SQLSTATE " ++ (c ++ codes ")")) | none ↦ m ]
  | none ↦ elim kept.code [
    | some c ↦ codes "error (SQLSTATE " ++ (c ++ codes ")")
    | none ↦ codes "unknown server error"
  ]
]

unfoldable pub parse_error_response : Bytes → Text
unfolding error_fields describe
parse_error_response payload =
    describe (error_fields (length payload) payload (record { message = none; code = none }))

module _ (c : BytesCrate) where
  unfoldable pub parse_auth_request : Bytes → Result ReplError (ℤ × Bytes)
  parse_auth_request payload =
      if ltb (length payload) 4 then err (protocol auth_too_short) else ok (c.get_i32 payload)

-- The loop of `parse_sasl_mechanisms`, with the same fuel.
unfoldable pub mechanisms_from : ℕ → Bytes → List Text
unfolding from_utf8_lossy split_once
mechanisms_from zero remaining = []
mechanisms_from (suc f) remaining = elim (split_once 0 remaining) [
  | none ↦ []
  | some ([], rest) ↦ []
  | some (c ∷ cs, rest) ↦ from_utf8_lossy (c ∷ cs) ∷ mechanisms_from f rest
]

unfoldable pub parse_sasl_mechanisms : Bytes → List Text
unfolding mechanisms_from
parse_sasl_mechanisms payload = mechanisms_from (length payload) payload
