-- ===== src/Replication/Messages/RoundTrip.antt =====
-- The parsers of replication/messages.rs on the payloads that the server writes.
use pg_x.Base.{
  ℕ, zero, suc, ◌≤◌, ◌≡◌, ◌≢◌, refl, ap, none, List, [], ◌∷◌, ◌++◌, length, length-append, All,
  arith,
}
use pg_x.Text.{Bytes, Text}
use pg_x.Text.Utf8.{from_utf8_lossy-is_utf8}
use pg_x.Text.Split.{split_once}
use pg_x.Text.Split.Found.{split_once_found}
use pg_x.Replication.Decoder.Decodes.{IsName}
use pg_x.Replication.Messages.{
  ErrorFields, keep_field, error_fields, describe, parse_error_response, mechanisms_from,
  parse_sasl_mechanisms,
}

-- Names, each with the byte 0 behind it, and the list's closing 0.
abbrev pub encode_names : List Text → Bytes
encode_names [] = 0 ∷ []
encode_names (s ∷ names) = s ++ 0 ∷ encode_names names

-- A field's tag, its text and 0; and the closing 0.
abbrev pub encode_fields : List (ℕ × Text) → Bytes
encode_fields [] = 0 ∷ []
encode_fields ((tag, s) ∷ fields) = tag ∷ (s ++ 0 ∷ encode_fields fields)

pub record IsMechanism (s : Text) : Type 0 where
  pub name : IsName s
  pub filled : s ≢ []

abbrev pub IsField : ℕ × Text → Type 0
IsField (tag, s) = (tag ≢ 0) × IsName s

abbrev pub kept_fields : List (ℕ × Text) → ErrorFields → ErrorFields
kept_fields [] kept = kept
kept_fields ((tag, s) ∷ fields) kept = kept_fields fields (keep_field tag s kept)

mechanisms_from-encode_names :
    (f : ℕ) (names : List Text)
    → length (encode_names names) ≤ f
    → All IsMechanism names
    → mechanisms_from f (encode_names names) ≡ names
unfolding mechanisms_from split_once
mechanisms_from-encode_names zero [] le h = refl
mechanisms_from-encode_names zero (s ∷ names) le h =
    absurd (omega (arith, length-append s (0 ∷ encode_names names)))
mechanisms_from-encode_names (suc f) [] le h = refl
mechanisms_from-encode_names (suc f) ([] ∷ names) le h = absurd (h.0.filled refl)
mechanisms_from-encode_names (suc f) ((c ∷ cs) ∷ names) le h =
    let shorter : length (encode_names names) ≤ f =
      omega (arith, length-append cs (0 ∷ encode_names names)) in
    ground (
      arith,
      split_once_found 0 (c ∷ cs) (encode_names names) h.0.name.no_zero,
      from_utf8_lossy-is_utf8 (c ∷ cs) h.0.name.utf8,
      mechanisms_from-encode_names f names shorter h.1,
    )

-- Every list of mechanism names that a server offers (UTF-8, not empty, with no byte 0) is read back,
-- in its order.
parse_sasl_mechanisms-encode_names :
    (names : List Text) → All IsMechanism names → parse_sasl_mechanisms (encode_names names) ≡ names
unfolding parse_sasl_mechanisms
parse_sasl_mechanisms-encode_names names h =
    mechanisms_from-encode_names (length (encode_names names)) names (omega arith) h

error_fields-encode_fields :
    (f : ℕ) (fields : List (ℕ × Text)) (kept : ErrorFields)
    → length (encode_fields fields) ≤ f
    → All IsField fields
    → error_fields f (encode_fields fields) kept ≡ kept_fields fields kept
unfolding error_fields
error_fields-encode_fields zero [] kept le h = absurd (omega arith)
error_fields-encode_fields zero ((tag, s) ∷ fields) kept le h = absurd (omega arith)
error_fields-encode_fields (suc f) [] kept le h = refl
error_fields-encode_fields (suc f) ((tag, s) ∷ fields) kept le h =
    let shorter : length (encode_fields fields) ≤ f =
      omega (arith, length-append s (0 ∷ encode_fields fields)) in
    ground (
      arith,
      h.0.0,
      split_once_found 0 s (encode_fields fields) h.0.1.no_zero,
      from_utf8_lossy-is_utf8 s h.0.1.utf8,
      error_fields-encode_fields f fields (keep_field tag s kept) shorter h.1,
    )

-- Every error response that a server writes is described by the last of its messages and the last of
-- its codes, whatever other fields stand among them.
parse_error_response-encode_fields :
    (fields : List (ℕ × Text))
    → All IsField fields
    → parse_error_response (encode_fields fields)
      ≡ describe (kept_fields fields (record { message = none; code = none }))
unfolding parse_error_response
parse_error_response-encode_fields fields h = ap describe (
    error_fields-encode_fields (length (encode_fields fields)) fields
      (record { message = none; code = none }) (omega arith) h)
