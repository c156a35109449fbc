-- ===== src/Text/Number.antt =====
-- Printing and parsing of natural numbers in a base: `Display`, `{:X}` and `u64::from_str_radix`.
pub mod RoundTrip
use pg_x.Base.{
  ℕ, zero, suc, ◌+◌, ◌-◌, ◌*◌, ◌/◌, ◌%◌, Option, none, some, [], ◌∷◌, ltb, leb, ◌==◌, ◌&&◌,
  if◌then◌else◌,
}
use pg_x.Text.{Text}

-- The digit of a number below 16, in upper case as `{:X}` writes it.
unfoldable pub digit : ℕ → ℕ
digit d = if ltb d 10 then b'0' + d else b'A' + (d - 10)

unfoldable pub digits_onto : ℕ → ℕ → ℕ → Text → Text
unfolding digit
digits_onto b zero n rest = rest
digits_onto b (suc f) n rest =
    let more = digits_onto b f (n / b) (digit (n % b) ∷ rest) in
    if ltb n b then digit n ∷ rest else more

-- `n` rounds and one are enough, since each divides by a base of at least 2.
unfoldable pub print_radix : ℕ → ℕ → Text
unfolding digits_onto
print_radix b n = digits_onto b (suc n) n []

-- `{}` of an unsigned integer.
abbrev pub print_dec : ℕ → Text
print_dec = print_radix 10

-- `{:X}` of an unsigned integer.
abbrev pub print_hex : ℕ → Text
print_hex = print_radix 16

-- `char::to_digit`; letters of either case.
unfoldable pub to_digit : ℕ → ℕ → Option ℕ
to_digit radix c =
    let d =
      if leb b'0' c && leb c b'9'
      then c - b'0'
      else if leb b'a' c && leb c b'z'
      then c - b'a' + 10
      else if leb b'A' c && leb c b'Z'
      then c - b'A' + 10
      else radix in
    if ltb d radix then some d else none

-- The loop of `from_str_radix` with its checked arithmetic: `none` for a digit that is none, and
-- where the value leaves the range below `limit`.
unfoldable pub read_digits : ℕ → ℕ → ℕ → Text → Option ℕ
unfolding to_digit
read_digits limit radix acc [] = some acc
read_digits limit radix acc (c ∷ cs) = elim (to_digit radix c) [
  | none ↦ none
  | some d ↦
      let rest = read_digits limit radix (acc * radix + d) cs in
      if ltb (acc * radix + d) limit then rest else none
]

-- Behind the sign, at least one digit.
read_unsigned : ℕ → ℕ → Text → Option ℕ
read_unsigned limit radix [] = none
read_unsigned limit radix (c ∷ cs) = read_digits limit radix 0 (c ∷ cs)

-- `uN::from_str_radix`: one leading '+' is allowed.
unfoldable pub from_str_radix : ℕ → ℕ → Text → Option ℕ
unfolding read_unsigned read_digits
from_str_radix limit radix [] = none
from_str_radix limit radix (c ∷ cs) =
    if c == b'+' then read_unsigned limit radix cs else read_unsigned limit radix (c ∷ cs)
