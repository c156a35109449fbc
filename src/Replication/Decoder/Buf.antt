-- ===== src/Replication/Decoder/Buf.antt =====
-- The byte reader `Buf` of replication/decoder.rs. A reader that fails ends the decoding, and
-- the buffer with it, so an error carries no buffer.
use pg_x.Base.{
  ◌>>◌, ℕ, ◌+◌, ◌-◌, [], ◌∷◌, ◌==◌, ltb, leb, if◌then◌else◌, length, get_or, take, drop, Result, ok,
  err,
}
use pg_x.Base.Int.{ℤ, to_signed}
use pg_x.Text.{Bytes, Text}
use pg_x.Text.Utf8.{is_utf8}
use pg_x.Word.{from_be_bytes, u32_mod}

-- `bytes` is the source's `data`.
pub record Buf : Type 0 where
  pub bytes : Bytes
  pub pos : ℕ

-- The messages of `bail!`.
pub data DecodeError : Type 0 where
  end_of_buffer : DecodeError
  -- bytes needed, bytes there
  underrun : ℕ → ℕ → DecodeError
  unterminated_cstring : DecodeError
  unknown_message unknown_column_kind unexpected_update_flag : ℕ → DecodeError

abbrev pub Reader {ℓ} : Type ℓ → Type ℓ
Reader A = Buf → Result DecodeError (A × Buf)

unfoldable pub new : Bytes → Buf
new bytes = record { bytes = bytes; pos = 0 }

abbrev pub advance : ℕ → Buf → Buf
advance n b = record b { pos = b.pos + n }

abbrev pub slice : Buf → ℕ → Bytes
slice b n = take n (drop b.pos b.bytes)

-- `self.data[self.pos]` behind the test that it is in range.
unfoldable pub read_u8 : Reader ℕ
read_u8 b =
    if leb (length b.bytes) b.pos
    then err end_of_buffer
    else ok (get_or b.bytes b.pos 0, advance 1 b)

-- `usize` is wide enough for the sum: `n` is below 2 ^ 32 at every call.
unfoldable pub ensure : ℕ → Buf → Result DecodeError (Unit {0})
ensure n b =
    if ltb (length b.bytes) (b.pos + n) then err (underrun n (length b.bytes - b.pos)) else ok tt

unfoldable pub read_bytes : ℕ → Reader Bytes
unfolding ensure
read_bytes n b = do ensure n b; ok (slice b n, advance n b)

unfoldable pub read_u16 : Reader ℕ
unfolding ensure
read_u16 b = do ensure 2 b; ok (from_be_bytes (slice b 2), advance 2 b)

unfoldable pub read_u32 : Reader ℕ
unfolding ensure
read_u32 b = do ensure 4 b; ok (from_be_bytes (slice b 4), advance 4 b)

unfoldable pub read_i32 : Reader ℤ
unfolding ensure to_signed
read_i32 b = do ensure 4 b; ok (to_signed u32_mod (from_be_bytes (slice b 4)), advance 4 b)

-- The loop of `read_cstring`: how far the first zero byte, or the end, lies ahead.
unfoldable pub until_zero : Bytes → ℕ
until_zero [] = 0
until_zero (c ∷ cs) = let more = until_zero cs + 1 in if c == 0 then 0 else more

abbrev pub utf8_or_empty : Bytes → Text
utf8_or_empty s = if is_utf8 s then s else []

unfoldable pub read_cstring : Reader Text
unfolding until_zero
read_cstring b =
    let n = until_zero (drop b.pos b.bytes) in
    if leb (length b.bytes) (b.pos + n)
    then err unterminated_cstring
    else ok (utf8_or_empty (slice b n), advance (n + 1) b)
