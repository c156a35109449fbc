-- ===== src/Text.antt =====
-- Text as its UTF-8 bytes, with what the standard library does to it: decoding of byte strings,
-- and printing of numbers.
pub mod Utf8
pub mod Number
pub mod Split
pub mod Ends
pub mod Chars
use Prim.Native.Char.{code}
use Prim.Native.String.{String}
use pg_x.Base.{ℕ, List, [], ◌∷◌}

abbrev pub Bytes : Type 0
Bytes = List ℕ

-- A `String` is valid UTF-8; it is kept as its bytes.
abbrev pub Text : Type 0
Text = List ℕ

-- The bytes of an ASCII literal.
abbrev pub codes : String → Text
codes String.[] = []
codes (String.◌∷◌ c s) = code c ∷ codes s
