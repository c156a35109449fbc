-- ===== src/Text/Split.antt =====
-- `find`, `split`, `splitn(2, _)` and `trim` of `str`, at an ASCII separator.
pub mod Found
pub mod Trimmed
use pg_x.Base.{ℕ, zero, suc, Option, none, some, List, [], ◌∷◌, ◌==◌, if◌then◌else◌, length}
use mathlib.Core.List.{reverse}
use pg_x.Text.{Text}

-- The text before and behind the first `sep`: `s[..pos]` and `s[pos + 1..]` for `s.find(sep)`.
unfoldable pub split_once : ℕ → Text → Option (Text × Text)
split_once sep [] = none
split_once sep (c ∷ cs) =
    let rest = split_once sep cs in
    if c == sep
    then some ([], cs)
    else elim rest [ none ↦ none | some (before, behind) ↦ some (c ∷ before, behind) ]

add_char : ℕ → List Text → List Text
add_char c [] = (c ∷ []) ∷ []
add_char c (part ∷ parts) = (c ∷ part) ∷ parts

-- `s.split(sep)`: one part more than separators.
unfoldable pub split : ℕ → Text → List Text
unfolding add_char
split sep [] = [] ∷ []
split sep (c ∷ cs) = let parts = split sep cs in if c == sep then [] ∷ parts else add_char c parts

-- `s[..pos]` for `s.rfind(sep)`.
unfoldable pub before_last : ℕ → Text → Option Text
unfolding split_once
before_last sep s = elim (split_once sep (reverse s)) [
  | none ↦ none
  | some (_, before) ↦ some (reverse before)
]

-- The characters with the property White_Space, in UTF-8.
abbrev spaces : List Text
spaces =
    (0x09 ∷ [])
    ∷ (0x0a ∷ [])
    ∷ (0x0b ∷ [])
    ∷ (0x0c ∷ [])
    ∷ (0x0d ∷ [])
    ∷ (0x20 ∷ [])
    ∷ (0xc2 ∷ 0x85 ∷ [])
    ∷ (0xc2 ∷ 0xa0 ∷ [])
    ∷ (0xe1 ∷ 0x9a ∷ 0x80 ∷ [])
    ∷ (0xe2 ∷ 0x80 ∷ 0x80 ∷ [])
    ∷ (0xe2 ∷ 0x80 ∷ 0x81 ∷ [])
    ∷ (0xe2 ∷ 0x80 ∷ 0x82 ∷ [])
    ∷ (0xe2 ∷ 0x80 ∷ 0x83 ∷ [])
    ∷ (0xe2 ∷ 0x80 ∷ 0x84 ∷ [])
    ∷ (0xe2 ∷ 0x80 ∷ 0x85 ∷ [])
    ∷ (0xe2 ∷ 0x80 ∷ 0x86 ∷ [])
    ∷ (0xe2 ∷ 0x80 ∷ 0x87 ∷ [])
    ∷ (0xe2 ∷ 0x80 ∷ 0x88 ∷ [])
    ∷ (0xe2 ∷ 0x80 ∷ 0x89 ∷ [])
    ∷ (0xe2 ∷ 0x80 ∷ 0x8a ∷ [])
    ∷ (0xe2 ∷ 0x80 ∷ 0xa8 ∷ [])
    ∷ (0xe2 ∷ 0x80 ∷ 0xa9 ∷ [])
    ∷ (0xe2 ∷ 0x80 ∷ 0xaf ∷ [])
    ∷ (0xe2 ∷ 0x81 ∷ 0x9f ∷ [])
    ∷ (0xe3 ∷ 0x80 ∷ 0x80 ∷ [])
    ∷ []

unfoldable pub strip_prefix : Text → Text → Option Text
strip_prefix [] s = some s
strip_prefix (p ∷ ps) [] = none
strip_prefix (p ∷ ps) (c ∷ cs) = let rest = strip_prefix ps cs in if p == c then rest else none

strip_any : List Text → Text → Option Text
strip_any [] s = none
strip_any (p ∷ ps) s = elim (strip_prefix p s) [ some rest ↦ some rest | none ↦ strip_any ps s ]

-- A round for each byte is enough: each takes at least one away.
strip_all : ℕ → List Text → Text → Text
strip_all zero ps s = s
strip_all (suc f) ps s = elim (strip_any ps s) [ none ↦ s | some rest ↦ strip_all f ps rest ]

reverse_all : List Text → List Text
reverse_all [] = []
reverse_all (p ∷ ps) = reverse p ∷ reverse_all ps

-- `s.trim_start()`
unfoldable pub trim_start : Text → Text
unfolding strip_prefix strip_any strip_all
trim_start s = strip_all (length s) spaces s

-- `s.trim()`; from the end it is the same search over the bytes backwards.
unfoldable pub trim : Text → Text
unfolding strip_prefix strip_any strip_all reverse_all
trim s =
    let front = strip_all (length s) spaces s in
    reverse (strip_all (length front) (reverse_all spaces) (reverse front))
