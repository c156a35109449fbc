-- ===== src/Text/Chars.antt =====
-- The characters of a text, each as its UTF-8 bytes, and the standard library's tests on them.
use pg_x.Base.{
  ℕ, ◌<◌, ◌≡◌, refl, List, [], ◌∷◌, ◌++◌, Bool, true, false, ◌&&◌, ◌||◌, ◌==◌, leb, if◌then◌else◌,
  All,
}
use pg_x.Map.{text_eq}
use pg_x.Text.{Bytes, Text}

abbrev pub Char : Type 0
Char = Bytes

abbrev pub is_continuation : ℕ → Bool
is_continuation b = leb 0x80 b && leb b 0xbf

abbrev goes_on : Text → Bool
goes_on [] = false
goes_on (b ∷ bs) = is_continuation b

abbrev into_first : ℕ → List Char → List Char
into_first b [] = (b ∷ []) ∷ []
into_first b (c ∷ cs) = (b ∷ c) ∷ cs

-- `s.chars()`: a character goes up to the next byte that is no continuation.
unfoldable pub chars : Text → List Char
chars [] = []
chars (b ∷ bs) = let rest = chars bs in if goes_on bs then into_first b rest else (b ∷ []) ∷ rest

abbrev pub concat : List Char → Text
concat [] = []
concat (c ∷ cs) = c ++ concat cs

-- The bytes of one character: a first one, and continuations.
abbrev pub IsChar : Char → Type 0
IsChar [] = ⊥
IsChar (b ∷ bs) = (is_continuation b ≡ false) × All (λ c. is_continuation c ≡ true) bs

-- `c == 'b'` for an ASCII character.
abbrev pub is_char : ℕ → Char → Bool
is_char b c = text_eq c (b ∷ [])

abbrev pub is_ascii_digit : Char → Bool
is_ascii_digit (b ∷ []) = leb b'0' b && leb b b'9'
is_ascii_digit _ = false

abbrev pub is_ascii_whitespace : Char → Bool
is_ascii_whitespace (b ∷ []) = b == 0x20 || (b == 0x09 || (b == 0x0a || (b == 0x0c || b == 0x0d)))
is_ascii_whitespace _ = false

abbrev pub ascii_alphanumeric : ℕ → Bool
ascii_alphanumeric b =
    (leb b'0' b && leb b b'9') || ((leb b'A' b && leb b b'Z') || (leb b'a' b && leb b b'z'))

-- The standard library's tables of Unicode: `char::is_alphanumeric` and `str::to_uppercase`.
pub record Unicode : Type 0 where
  pub is_alphanumeric : Char → Bool
  pub to_uppercase : Text → Text

-- What the tables say of ASCII.
pub record AsciiRules (u : Unicode) : Type 0 where
  pub alphanumeric : (b : ℕ) → b < 128 → u.is_alphanumeric (b ∷ []) ≡ ascii_alphanumeric b

goes_on-concat : (cs : List Char) → All IsChar cs → goes_on (concat cs) ≡ false
goes_on-concat [] h = refl
goes_on-concat ([] ∷ cs) h = absurd h.0
goes_on-concat ((b ∷ bs) ∷ cs) h = h.0.0

chars-append :
    (b : ℕ) (bs rest : Text)
    → All (λ c. is_continuation c ≡ true) bs
    → goes_on rest ≡ false
    → chars (b ∷ (bs ++ rest)) ≡ (b ∷ bs) ∷ chars rest
unfolding chars
chars-append b [] rest h g = rw g refl
chars-append b (c ∷ bs) rest h g = rw (h.0, chars-append c bs rest h.1 g) refl

-- Characters that are joined come apart again.
pub chars-concat : (cs : List Char) → All IsChar cs → chars (concat cs) ≡ cs
unfolding chars
chars-concat [] h = refl
chars-concat ([] ∷ cs) h = absurd h.0
chars-concat ((b ∷ bs) ∷ cs) h =
    rw (chars-append b bs (concat cs) h.0.1 (goes_on-concat cs h.1), chars-concat cs h.1) refl
