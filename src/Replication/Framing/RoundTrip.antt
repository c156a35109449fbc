-- ===== src/Replication/Framing/RoundTrip.antt =====
-- A frame that framing.rs writes, read back by its reader.
use mathlib.Core.List.{append_assoc}
use native.Mathlib.Nat.{mod-eq_of_lt}
use pg_x.Replication.Error.{ReplError}
use pg_x.Base.{
  ℕ, suc, ◌+◌, ◌-◌, ◌%◌, ◌≤◌, ◌≡◌, refl, ap, ◌∙◌, [], ◌∷◌, ◌++◌, length, take, drop, Result, ok,
  ltb, false, arith,
}
use pg_x.Base.Int.{pos, to_signed, to_unsigned}
use pg_x.Text.{Bytes, Text}
use pg_x.Word.{from_be_bytes, to_be_bytes, length-to_be_bytes, u32_roundtrip, u32_mod}
use pg_x.Replication.BytesCrate.{BytesCrate, BytesRules}
use pg_x.Replication.Framing.{
  max_message_size, BackendMessage, Connection, read_payload, read_rest, read_backend_message,
  patch_length, framed, query_message, copy_data,
}

-- The runtime's contract: of a connection with bytes to read, `read_exact` takes the first `n`.
pub record ReadRules (conn : Connection) : Type 0 where
  pub pending : conn.S → Bytes
  pub read_exact_rule :
      (bs rest : Bytes) (s : conn.S)
      → pending s ≡ bs ++ rest
      → (s' : conn.S) × (conn.read_exact (length bs) s ≡ ok (bs, s')) × (pending s' ≡ rest)

-- The frame of the protocol's documentation: a tag, the length with its own four bytes, and the
-- payload.
unfoldable frame : ℕ → Bytes → Bytes
frame tag payload = tag ∷ (to_be_bytes 4 ((4 + length payload) % u32_mod) ++ payload)

module _ (c : BytesCrate) (h : BytesRules c) where
  framed-eq : (tag : ℕ) → framed c tag ≡ tag ∷ 0 ∷ 0 ∷ 0 ∷ 0 ∷ []
  unfolding framed to_be_bytes to_unsigned
  framed-eq tag = rw (h.put_i32_rule, h.put_u8_rule) refl

  copy_data-frame : (payload : Bytes) → copy_data c payload ≡ frame b'd' payload
  unfolding copy_data patch_length frame
  copy_data-frame payload =
      rw (framed-eq b'd') (ap (λ n. b'd' ∷ (to_be_bytes 4 (n % u32_mod) ++ payload)) (omega arith))

  query_message-frame : (sql : Text) → query_message c sql ≡ frame b'Q' (sql ++ 0 ∷ [])
  unfolding query_message patch_length frame
  query_message-frame sql =
      rw (framed-eq b'Q', h.put_u8_rule)
        (ap (λ n. b'Q' ∷ (to_be_bytes 4 (n % u32_mod) ++ (sql ++ 0 ∷ []))) (omega arith))

length_word : ℕ → Bytes
length_word n = to_be_bytes 4 ((4 + n) % u32_mod)

length_word-read :
    (n : ℕ) → n ≤ max_message_size → to_signed u32_mod (from_be_bytes (length_word n)) ≡ pos (4 + n)
unfolding length_word to_signed
length_word-read n le =
    rw
      (
        u32_roundtrip ((4 + n) % u32_mod) (omega arith),
        mod-eq_of_lt {n = 4 + n} {m = u32_mod} (omega arith),
      )
      (ground arith)

length_word-take : (tag n : ℕ) → take 4 (drop 1 (tag ∷ length_word n)) ≡ length_word n
unfolding length_word to_be_bytes
length_word-take tag n = refl

length_word-five : (tag n : ℕ) → length (tag ∷ length_word n) ≡ 5
unfolding length_word
length_word-five tag n = ap suc (length-to_be_bytes 4 ((4 + n) % u32_mod))

module _ (conn : Connection) (h : ReadRules conn) where
  Reads : Result ReplError (BackendMessage × conn.S) → ℕ → Bytes → Bytes → Type 0
  Reads r tag payload rest =
      (s' : conn.S) × (r ≡ ok (record { tag = tag; payload = payload }, s')) × (h.pending s' ≡ rest)

  read_payload-Reads :
      (tag : ℕ) (payload rest : Bytes) (s : conn.S)
      → length payload ≤ max_message_size
      → h.pending s ≡ payload ++ rest
      → Reads (read_payload conn tag (length payload) s) tag payload rest
  unfolding read_payload Reads
  read_payload-Reads tag payload rest s le p =
      let (s', e, p') = h.read_exact_rule payload rest s p in
      let fits : ltb max_message_size (length payload) ≡ false = ground arith in
      (s', rw (fits, e) refl, p')

  read_rest-Reads :
      (tag : ℕ) (payload rest : Bytes) (s : conn.S)
      → length payload ≤ max_message_size
      → h.pending s ≡ payload ++ rest
      → Reads (read_rest conn (tag ∷ length_word (length payload)) s) tag payload rest
  unfolding read_rest
  read_rest-Reads tag payload rest s le p =
      let long : ltb (4 + length payload) 4 ≡ false = ground arith in
      let size : 4 + length payload - 4 ≡ length payload = omega arith in
      rw (length_word-take tag (length payload), length_word-read (length payload) le, long, size)
        (read_payload-Reads tag payload rest s le p)

  read-frame :
      (tag : ℕ) (payload rest : Bytes) (s : conn.S)
      → length payload ≤ max_message_size
      → h.pending s ≡ frame tag payload ++ rest
      → Reads (read_backend_message conn s) tag payload rest
  unfolding read_backend_message frame length_word Reads
  read-frame tag payload rest s le p =
      let (s1, e, p1) =
        h.read_exact_rule (tag ∷ length_word (length payload)) (payload ++ rest) s
          (p ∙ ap (λ l. tag ∷ l) (append_assoc (length_word (length payload)) payload rest)) in
      let (s2, read, p2) = read_rest-Reads tag payload rest s1 le p1 in
      let five = length_word-five tag (length payload) in
      let e' : conn.read_exact 5 s ≡ ok (tag ∷ length_word (length payload), s1) = cc in
      (s2, rw e' read, p2)

  -- What is written as CopyData of at most 64 MB is read as the message with its tag and its payload,
  -- and nothing behind it is touched.
  pub read_backend_message-copy_data :
      (c : BytesCrate) (payload rest : Bytes) (s : conn.S)
      → BytesRules c
      → length payload ≤ max_message_size
      → h.pending s ≡ copy_data c payload ++ rest
      → (s' : conn.S) × (read_backend_message conn s
          ≡ ok (record { tag = b'd'; payload = payload }, s'))
        × (h.pending s' ≡ rest)
  unfolding Reads
  read_backend_message-copy_data c payload rest s hc le p =
      read-frame b'd' payload rest s le (rw (copy_data-frame c hc payload) at p)
