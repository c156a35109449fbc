-- ===== src/Utils/Numeric.antt =====
-- `pg_numeric_to_string` of utils/format.rs: PostgreSQL's binary `numeric` as decimal text.
pub mod Digits
pub mod Value
pub mod Wire
use pg_x.Base.{
  ℕ, zero, suc, ◌+◌, ◌-◌, ◌*◌, ◌/◌, ◌%◌, Option, none, some, List, [], ◌∷◌, ◌++◌, Bool, true, false,
  ◌==◌, ◌||◌, ltb, leb, if◌then◌else◌, length, take, drop,
}
use pg_x.Base.Int.{ℤ, pos, negsuc, to_signed}
use pg_x.Text.{Bytes, Text, codes}
use pg_x.Text.Number.{print_dec}
use pg_x.Word.{from_be_bytes, u16_mod}

abbrev pub zeros : ℕ → Text
zeros zero = []
zeros (suc n) = b'0' ∷ zeros n

-- The four digits of a number below 10000.
abbrev pub four : ℕ → Text
four n =
    (b'0' + n / 1000 % 10) ∷ (b'0' + n / 100 % 10) ∷ (b'0' + n / 10 % 10) ∷ (b'0' + n % 10) ∷ []

-- `{:04}` of an `i16`; the sign counts among the four.
unfoldable pub padded : ℤ → Text
padded (pos n) = if ltb n 10000 then four n else print_dec n
padded (negsuc n) = let text = print_dec (n + 1) in b'-' ∷ (zeros (3 - length text) ++ text)

-- `read_i16` at a place that is there.
abbrev pub word : Bytes → ℕ
word raw = from_be_bytes (take 2 raw)

-- The loop over the digits, from the first of them on.
unfoldable pub digit_texts : ℕ → Bytes → Option Text
unfolding padded to_signed from_be_bytes
digit_texts zero raw = some []
digit_texts (suc n) (a ∷ b ∷ raw) = elim (digit_texts n raw) [
  | none ↦ none
  | some rest ↦ some (padded (to_signed u16_mod (word (a ∷ b ∷ raw))) ++ rest)
]
digit_texts (suc n) _ = none

-- `trim_start_matches('0')`
unfoldable pub trim_zeros : Text → Text
trim_zeros [] = []
trim_zeros (c ∷ cs) = let rest = trim_zeros cs in if c == b'0' then rest else c ∷ cs

-- The digits before the point and behind it.
unfoldable pub parts : ℤ → Text → Text × Text
unfolding trim_zeros
parts (negsuc m) digits = (codes "0", zeros (m * 4) ++ digits)
parts (pos w) digits =
    let int_chars = (w + 1) * 4 in
    if leb (length digits) int_chars
    then (trim_zeros (digits ++ zeros (int_chars - length digits)), [])
    else (trim_zeros (take int_chars digits), drop int_chars digits)

abbrev or_zero : Text → Text
or_zero [] = codes "0"
or_zero (c ∷ cs) = c ∷ cs

-- The fraction cut or padded to the display scale.
unfoldable pub scaled : ℕ → Text → Text
scaled dscale frac =
    if ltb dscale (length frac) then take dscale frac else frac ++ zeros (dscale - length frac)

abbrev pub assembled : Bool → ℕ → Text → Text → Text
assembled negative dscale integer frac =
    let magnitude = integer ++ (if ltb 0 dscale then b'.' ∷ frac else []) in
    if negative then b'-' ∷ magnitude else magnitude

finite : Bool → ℤ → ℕ → Text → Text
unfolding parts scaled
finite negative weight dscale digits =
    let (integer, frac) = parts weight digits in
    assembled negative dscale (or_zero integer) (scaled dscale frac)

-- What the sign says of the value.
by_sign : (sign ndigits dscale : ℕ) → ℤ → Bytes → Option Text
unfolding digit_texts finite
by_sign sign ndigits dscale weight raw =
    if sign == 0xC000
    then some (codes "NaN")
    else if sign == 0xD000
    then some (codes "Infinity")
    else if sign == 0xF000
    then some (codes "-Infinity")
    else if sign == 0 || sign == 0x4000
    then (elim (digit_texts ndigits raw) [
      | none ↦ none
      | some digits ↦ some (finite (sign == 0x4000) weight dscale digits)
    ])
    else none

with_counts : ℤ → ℤ → ℤ → ℕ → Bytes → Option Text
unfolding by_sign
with_counts (pos ndigits) weight (pos dscale) sign raw =
    if ltb (length raw) (8 + ndigits * 2)
    then none
    else by_sign sign ndigits dscale weight (drop 8 raw)
with_counts _ _ _ sign raw = none

unfoldable pub pg_numeric_to_string : Bytes → Option Text
unfolding with_counts to_signed from_be_bytes
pg_numeric_to_string raw =
    if ltb (length raw) 8
    then none
    else with_counts (to_signed u16_mod (word raw)) (to_signed u16_mod (word (drop 2 raw)))
        (to_signed u16_mod (word (drop 6 raw))) (word (drop 4 raw)) raw
