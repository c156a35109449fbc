-- ===== src/Replication/Framing/Bounds.antt =====
-- What the reader of framing.rs asks the connection for, whatever a server sends.
use pg_x.Base.{ℕ, ◌≤◌, ◌≡◌, inl, inr, Bool-cases, ltb, length, take, drop, ok, >>=-eq-ok, arith}
use pg_x.Base.Int.{to_signed}
use pg_x.Text.{Bytes}
use pg_x.Word.{from_be_bytes, u32_mod}
use pg_x.Replication.Framing.{
  max_message_size, BackendMessage, Connection, below_four, payload_size, first_byte, read_payload,
  read_rest, read_backend_message,
}

-- The runtime's contract: `read_exact` hands over as many bytes as it is asked for.
abbrev pub Exact : Connection → Type 0
Exact conn =
    (n : ℕ) (s s' : conn.S) (bs : Bytes) → conn.read_exact n s ≡ ok (bs, s') → length bs ≡ n

module _ (conn : Connection) (exact : Exact conn) where
  read_payload-le :
      (tag size : ℕ) (s s' : conn.S) (m : BackendMessage)
      → read_payload conn tag size s ≡ ok (m, s')
      → length m.payload ≤ max_message_size
  unfolding read_payload
  read_payload-le tag size s s' m e = elim (Bool-cases (ltb max_message_size size)) [
    | inl big ↦ absurd (let refused = rw big at e in cc)
    | inr small ↦
        let (r, read, made) = >>=-eq-ok (conn.read_exact size s) _ (rw small at e) in
        let len = exact size s r.1 r.0 read in
        let same : m.payload ≡ r.0 = cc in let count : length m.payload ≡ size = cc in ground arith
  ]

  read_rest-le :
      (hdr : Bytes) (s s' : conn.S) (m : BackendMessage)
      → read_rest conn hdr s ≡ ok (m, s')
      → length m.payload ≤ max_message_size
  unfolding read_rest
  read_rest-le hdr s s' m e =
      let len = to_signed u32_mod (from_be_bytes (take 4 (drop 1 hdr))) in
      elim (Bool-cases (below_four len)) [
        | inl bad ↦ absurd (let refused = rw bad at e in cc)
        | inr good ↦ read_payload-le (first_byte hdr) (payload_size len) s s' m (rw good at e)
      ]

  -- Whatever a server sends, no message with more than 64 MB of payload is handed on.
  read_backend_message-le :
      (s s' : conn.S) (m : BackendMessage)
      → read_backend_message conn s ≡ ok (m, s')
      → length m.payload ≤ max_message_size
  unfolding read_backend_message
  read_backend_message-le s s' m e =
      let (hdr, read, made) =
        >>=-eq-ok (conn.read_exact 5 s) (λ hdr. read_rest conn hdr.0 hdr.1) e in
      read_rest-le hdr.0 hdr.1 s' m made
