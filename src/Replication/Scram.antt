-- ===== src/Replication/Scram.antt =====
-- replication/scram.rs: the client of SCRAM-SHA-256.
pub mod Verify
pub mod Proof
pub mod Escape
use Prim.Native.Nat.{bit_or, bit_xor}
use pg_x.Base.{
  ℕ, zero, suc, ◌-◌, Option, none, some, List, [], ◌∷◌, ◌++◌, Bool, true, false, ◌&&◌, ◌==◌,
  if◌then◌else◌, length, Result, ok, err, ok_or, ◌>>=◌,
}
use pg_x.Text.{Bytes, Text, codes}
use pg_x.Text.Number.{from_str_radix}
use pg_x.Text.Split.{split, strip_prefix, trim}
use pg_x.Word.{to_be_bytes, u32_mod}
use pg_x.Replication.Error.{
  ReplError, auth, nonce_mismatch, invalid_salt, missing_nonce, missing_salt, missing_iterations,
  server_error, missing_signature, invalid_signature, signature_mismatch,
}

-- The crates base64, hmac with SHA-256, and sha2.
pub record Crypto : Type 0 where
  pub encode : Bytes → Text
  pub decode : Text → Option Bytes
  pub hmac : (key msg : Bytes) → Bytes
  pub digest : Bytes → Bytes

pub record ScramClient : Type 0 where
  pub client_nonce_b64 : Text
  pub client_first_bare : Text
  pub client_first : Text

pub record ServerFirst : Type 0 where
  pub rnonce : Text
  pub salt : Text
  pub iters : ℕ

pub record ClientFinal : Type 0 where
  pub client_final : Text
  pub auth_message : Text
  pub salted_password : Bytes

-- `s.starts_with(p)`
abbrev starts_with : Text → Text → Bool
starts_with p s = elim (strip_prefix p s) [ none ↦ false | some rest ↦ true ]

-- `=` and `,` of a name, in the order of the two `replace`.
unfoldable pub sasl_escape : Text → Text
sasl_escape [] = []
sasl_escape (c ∷ u) =
    let rest = sasl_escape u in
    if c == b'=' then codes "=3D" ++ rest else if c == b',' then codes "=2C" ++ rest else c ∷ rest

unfoldable pub xor_bytes : Bytes → Bytes → Bytes
xor_bytes [] b = []
xor_bytes (x ∷ a) [] = []
xor_bytes (x ∷ a) (y ∷ b) = bit_xor x y ∷ xor_bytes a b

-- `o ^= ui` over the zip, where `out` keeps what has no partner.
unfoldable pub xor_onto : Bytes → Bytes → Bytes
xor_onto [] u = []
xor_onto (o ∷ out) [] = o ∷ out
xor_onto (o ∷ out) (x ∷ u) = bit_xor o x ∷ xor_onto out u

-- What is kept of the parts so far.
record Parts : Type 0 where
  r : Option Text
  s : Option Text
  i : Option ℕ

take_part : Text → Parts → Parts
unfolding strip_prefix from_str_radix
take_part part kept = elim (strip_prefix (codes "r=") part) [
  | some v ↦ record kept { r = some v }
  | none ↦ elim (strip_prefix (codes "s=") part) [
    | some v ↦ record kept { s = some v }
    | none ↦ elim (strip_prefix (codes "i=") part) [
      | some v ↦ record kept { i = from_str_radix u32_mod 10 v }
      | none ↦ kept
    ]
  ]
]

take_parts : List Text → Parts → Parts
unfolding take_part
take_parts [] kept = kept
take_parts (part ∷ parts) kept = take_parts parts (take_part part kept)

unfoldable pub parse_server_first : Text → Result ReplError ServerFirst
unfolding take_parts split
parse_server_first text =
    let kept = take_parts (split b',' text) (record { r = none; s = none; i = none }) in
    do
      r ← ok_or kept.r (auth missing_nonce)
      s ← ok_or kept.s (auth missing_salt)
      i ← ok_or kept.i (auth missing_iterations)
      ok (record { rnonce = r; salt = s; iters = i })

-- `find_map(|p| p.strip_prefix(prefix))`
unfoldable pub find_part : Text → List Text → Option Text
unfolding strip_prefix
find_part prefix [] = none
find_part prefix (p ∷ ps) = elim (strip_prefix prefix p) [
  | some v ↦ some v
  | none ↦ find_part prefix ps
]

-- The fold of `a | (x ^ y)` over the zip.
unfoldable pub differences : ℕ → Bytes → Bytes → ℕ
differences acc [] ys = acc
differences acc (x ∷ xs) [] = acc
differences acc (x ∷ xs) (y ∷ ys) = differences (bit_or acc (bit_xor x y)) xs ys

unfoldable pub signatures_agree : Bytes → Bytes → Bool
unfolding differences
signatures_agree server_sig expected =
    length server_sig == length expected && differences 0 server_sig expected == 0

module _ (k : Crypto) where
  -- `nonce` is what the random number generator filled in.
  unfoldable pub new : (nonce : Bytes) (username : Text) → ScramClient
  unfolding sasl_escape
  new nonce username =
      let nonce_b64 = k.encode nonce in
      let bare = codes "n=" ++ (sasl_escape username ++ (codes ",r=" ++ nonce_b64)) in
      record {
        client_nonce_b64 = nonce_b64;
        client_first_bare = bare;
        client_first = codes "n,," ++ bare;
      }

  -- The rounds of `hi_sha256` behind the first.
  unfoldable pub hi_rounds : ℕ → Bytes → Bytes → Bytes → Bytes
  unfolding xor_onto
  hi_rounds zero password u out = out
  hi_rounds (suc n) password u out =
      let u' = k.hmac password u in hi_rounds n password u' (xor_onto out u')

  unfoldable pub hi_sha256 : (password salt : Bytes) → ℕ → Bytes
  unfolding hi_rounds
  hi_sha256 password salt iters =
      let u = k.hmac password (salt ++ to_be_bytes 4 1) in hi_rounds (iters - 1) password u u

  -- `client_final` behind the decoding of the salt.
  unfoldable pub final_message : ScramClient → Text → Text → Text → Bytes → ℕ → ClientFinal
  unfolding hi_sha256 xor_bytes
  final_message client password server_first rnonce salt iters =
      let wo_proof = codes "c=biws,r=" ++ rnonce in
      let auth_message = client.client_first_bare ++ (b',' ∷ (server_first ++ b',' ∷ wo_proof)) in
      let salted_password = hi_sha256 password salt iters in
      let client_key = k.hmac salted_password (codes "Client Key") in
      let stored_key = k.digest client_key in
      let client_sig = k.hmac stored_key auth_message in
      let proof = xor_bytes client_key client_sig in
      record {
        client_final = wo_proof ++ (codes ",p=" ++ k.encode proof);
        auth_message = auth_message;
        salted_password = salted_password;
      }

  unfoldable pub client_final_of : ScramClient → Text → Text → Result ReplError ClientFinal
  unfolding parse_server_first final_message
  client_final_of client password server_first = do
    first ← parse_server_first server_first
    (if starts_with client.client_nonce_b64 first.rnonce
        then (do
          salt ← ok_or (k.decode first.salt) (auth invalid_salt)
          ok (final_message client password server_first first.rnonce salt first.iters))
        else err (auth nonce_mismatch))

  -- `expected`
  abbrev pub server_signature : Bytes → Text → Bytes
  server_signature salted_password auth_message =
      k.hmac (k.hmac salted_password (codes "Server Key")) auth_message

  check_signature : Text → Bytes → Text → Result ReplError (Unit {0})
  unfolding signatures_agree trim
  check_signature v salted_password auth_message = do
    server_sig ← ok_or (k.decode (trim v)) (auth invalid_signature)
    (if signatures_agree server_sig (server_signature salted_password auth_message)
        then ok tt
        else err (auth signature_mismatch))

  unfoldable pub verify_server_final : Text → Bytes → Text → Result ReplError (Unit {0})
  unfolding find_part check_signature split
  verify_server_final server_final salted_password auth_message =
      elim (find_part (codes "e=") (split b',' server_final)) [
        | some e ↦ err (auth (server_error e))
        | none ↦ do
          v ← ok_or (find_part (codes "v=") (split b',' server_final)) (auth missing_signature)
          check_signature v salted_password auth_message
      ]
