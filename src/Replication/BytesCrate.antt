-- ===== src/Replication/BytesCrate.antt =====
-- The `bytes` crate, as far as replication/ uses it: the cursor `Buf` and the writer `BufMut`. A
-- buffer is the bytes that it holds.
use pg_x.Base.{ℕ, [], ◌∷◌, ◌++◌, ◌≡◌, length}
use pg_x.Base.Int.{ℤ, to_signed, to_unsigned}
use pg_x.Text.{Bytes}
use pg_x.Word.{from_be_bytes, to_be_bytes, u32_mod, u64_mod}

pub record BytesCrate : Type 0 where
  pub get_u8 : Bytes → ℕ × Bytes
  pub get_i32 : Bytes → ℤ × Bytes
  pub get_i64 : Bytes → ℤ × Bytes
  pub copy_to_bytes : ℕ → Bytes → Bytes × Bytes
  pub put_u8 : ℕ → Bytes → Bytes
  pub put_i32 : ℤ → Bytes → Bytes

-- What the crate documents: big-endian words, taken off the front and put on the end.
pub record BytesRules (c : BytesCrate) : Type 0 where
  pub get_u8_rule : (b : ℕ) (rest : Bytes) → c.get_u8 (b ∷ rest) ≡ (b, rest)
  pub get_i32_rule :
      (word rest : Bytes)
      → length word ≡ 4
      → c.get_i32 (word ++ rest) ≡ (to_signed u32_mod (from_be_bytes word), rest)
  pub get_i64_rule :
      (word rest : Bytes)
      → length word ≡ 8
      → c.get_i64 (word ++ rest) ≡ (to_signed u64_mod (from_be_bytes word), rest)
  pub copy_to_bytes_rule :
      (first rest : Bytes) → c.copy_to_bytes (length first) (first ++ rest) ≡ (first, rest)
  pub put_u8_rule : (b : ℕ) (bs : Bytes) → c.put_u8 b bs ≡ bs ++ b ∷ []
  pub put_i32_rule :
      (z : ℤ) (bs : Bytes) → c.put_i32 z bs ≡ bs ++ to_be_bytes 4 (to_unsigned u32_mod z)
