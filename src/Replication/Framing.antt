-- ===== src/Replication/Framing.antt =====
-- replication/framing.rs: the frames of the protocol. A writer is the frame that it hands to
-- `write_all`; the reader's buffer is what it holds.
pub mod Bounds
pub mod RoundTrip
use pg_x.Base.{
  ℕ, ◌+◌, ◌-◌, ◌*◌, ◌%◌, List, [], ◌∷◌, ◌++◌, Bool, true, ltb, if◌then◌else◌, length, take, drop,
  Result, ok, err, ◌>>=◌,
}
use pg_x.Base.Int.{ℤ, pos, negsuc, to_signed}
use pg_x.Text.{Bytes, Text}
use pg_x.Word.{from_be_bytes, to_be_bytes, u32_mod}
use pg_x.Replication.Error.{ReplError, protocol, invalid_length, too_large}
use pg_x.Replication.BytesCrate.{BytesCrate}

abbrev pub max_message_size : ℕ
max_message_size = 64 * 1024 * 1024

pub record BackendMessage : Type 0 where
  pub tag : ℕ
  pub payload : Bytes

-- The runtime's connection with `read_exact`, `write_all` and `flush`.
pub record Connection : Type 1 where
  pub S : Type 0
  pub read_exact : ℕ → S → Result ReplError (Bytes × S)
  pub write_all : Bytes → S → Result ReplError S
  pub flush : S → Result ReplError S

-- `len < 4` of a signed number.
abbrev below_four : ℤ → Bool
below_four (pos n) = ltb n 4
below_four (negsuc n) = true

-- `(len - 4) as usize`, where it is not negative.
abbrev payload_size : ℤ → ℕ
payload_size (pos n) = n - 4
payload_size (negsuc n) = 0

abbrev first_byte : Bytes → ℕ
first_byte [] = 0
first_byte (tag ∷ _) = tag

module _ (conn : Connection) where
  read_payload : ℕ → ℕ → conn.S → Result ReplError (BackendMessage × conn.S)
  read_payload tag size s =
      if ltb max_message_size size
      then err (protocol (too_large size))
      else (do r ← conn.read_exact size s; ok (record { tag = tag; payload = r.0 }, r.1))

  -- Behind the header of five bytes.
  read_rest : Bytes → conn.S → Result ReplError (BackendMessage × conn.S)
  unfolding to_signed from_be_bytes read_payload
  read_rest hdr s =
      let len = to_signed u32_mod (from_be_bytes (take 4 (drop 1 hdr))) in
      if below_four len
      then err (protocol (invalid_length len))
      else read_payload (first_byte hdr) (payload_size len) s

  unfoldable pub read_backend_message : conn.S → Result ReplError (BackendMessage × conn.S)
  unfolding read_rest
  read_backend_message s = do hdr ← conn.read_exact 5 s; read_rest hdr.0 hdr.1

  -- What every writer ends with.
  unfoldable pub send : Bytes → conn.S → Result ReplError conn.S
  send frame s = do s' ← conn.write_all frame s; conn.flush s'

-- `buf[at..at + 4].copy_from_slice(&(n as i32).to_be_bytes())`
unfoldable pub patch_length : ℕ → ℕ → Bytes → Bytes
patch_length at n buf = take at buf ++ (to_be_bytes 4 (n % u32_mod) ++ drop (at + 4) buf)

module _ (c : BytesCrate) where
  put_params : List (Text × Text) → Bytes → Bytes
  put_params [] buf = buf
  put_params ((k, v) ∷ params) buf = put_params params (c.put_u8 0 (c.put_u8 0 (buf ++ k) ++ v))

  unfoldable pub startup_message : ℤ → List (Text × Text) → Bytes
  unfolding put_params patch_length
  startup_message protocol_version params =
      let buf =
        c.put_u8 0 (put_params params (c.put_i32 protocol_version (c.put_i32 (pos 0) []))) in
      patch_length 0 (length buf) buf

  -- The tag and the place of the length.
  framed : ℕ → Bytes
  framed tag = c.put_i32 (pos 0) (c.put_u8 tag [])

  unfoldable pub query_message : Text → Bytes
  unfolding framed patch_length
  query_message sql =
      let buf = c.put_u8 0 (framed b'Q' ++ sql) in patch_length 1 (length buf - 1) buf

  unfoldable pub password_message : Bytes → Bytes
  unfolding framed patch_length
  password_message payload = let buf = framed b'p' ++ payload in patch_length 1 (length buf - 1) buf

  unfoldable pub copy_data : Bytes → Bytes
  unfolding framed patch_length
  copy_data payload = let buf = framed b'd' ++ payload in patch_length 1 (length buf - 1) buf

unfoldable pub copy_done : Bytes
copy_done = b'c' ∷ to_be_bytes 4 4

-- `write_ssl_request`
unfoldable pub ssl_request : Bytes
ssl_request = to_be_bytes 4 8 ++ to_be_bytes 4 80877103
