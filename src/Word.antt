-- ===== src/Word.antt =====
-- Big-endian words: `uN::from_be_bytes` and `to_be_bytes`. A word is a natural number below
-- 2 ^ 16, 2 ^ 32 or 2 ^ 64; a signed one is read from its bit pattern.
pub mod Bits
pub mod Xor
use pg_x.Base.{ℕ, zero, suc, ◌+◌, ◌*◌, ◌/◌, ◌%◌, ◌^◌, ◌<◌, ◌≡◌, refl, [], ◌∷◌, arith, length}
use pg_x.Text.{Bytes}

abbrev pub u8_mod : ℕ
u8_mod = 256

abbrev pub u16_mod : ℕ
u16_mod = 2 ^ 16

abbrev pub u32_mod : ℕ
u32_mod = 2 ^ 32

abbrev pub u64_mod : ℕ
u64_mod = 2 ^ 64

be_onto : ℕ → Bytes → ℕ
be_onto acc [] = acc
be_onto acc (c ∷ cs) = be_onto (acc * 256 + c) cs

-- The word that the bytes stand for, the highest first.
unfoldable pub from_be_bytes : Bytes → ℕ
unfolding be_onto
from_be_bytes = be_onto 0

-- The lowest `n` bytes of a word, the highest first.
unfoldable pub to_be_bytes : ℕ → ℕ → Bytes
to_be_bytes zero x = []
to_be_bytes (suc n) x = x / 256 ^ n % 256 ∷ to_be_bytes n x

pub length-to_be_bytes : (n x : ℕ) → length (to_be_bytes n x) ≡ n
unfolding to_be_bytes
length-to_be_bytes zero x = refl
length-to_be_bytes (suc n) x = omega (arith, length-to_be_bytes n x)

pub u16_roundtrip : (x : ℕ) → x < u16_mod → from_be_bytes (to_be_bytes 2 x) ≡ x
unfolding from_be_bytes to_be_bytes
u16_roundtrip x h = omega arith

pub u32_roundtrip : (x : ℕ) → x < u32_mod → from_be_bytes (to_be_bytes 4 x) ≡ x
unfolding from_be_bytes to_be_bytes
u32_roundtrip x h = omega arith

pub u64_roundtrip : (x : ℕ) → x < u64_mod → from_be_bytes (to_be_bytes 8 x) ≡ x
unfolding from_be_bytes to_be_bytes
u64_roundtrip x h = omega arith
