-- ===== src/Text/Ends.antt =====
-- `starts_with`, `ends_with`, `trim_start_matches`, `trim_end_matches` and `lines` of `str`.
use pg_x.Base.{ℕ, ◌==◌, none, some, List, [], ◌∷◌, ◌++◌, Bool, true, false, if◌then◌else◌}
use mathlib.Core.List.{reverse}
use pg_x.Text.{Text}
use pg_x.Text.Split.{strip_prefix}

unfoldable pub starts_with : Text → Text → Bool
unfolding strip_prefix
starts_with prefix s = elim (strip_prefix prefix s) [ none ↦ false | some _ ↦ true ]

-- With a character in place of a pattern, as in the two below.
unfoldable pub ends_with : ℕ → Text → Bool
ends_with sep s = elim (reverse s) [ [] ↦ false | c ∷ _ ↦ c == sep ]

unfoldable pub trim_start_matches : ℕ → Text → Text
trim_start_matches sep [] = []
trim_start_matches sep (c ∷ cs) =
    let rest = trim_start_matches sep cs in if c == sep then rest else c ∷ cs

unfoldable pub trim_end_matches : ℕ → Text → Text
unfolding trim_start_matches
trim_end_matches sep s = reverse (trim_start_matches sep (reverse s))

unfoldable pub contains_char : ℕ → Text → Bool
contains_char sep [] = false
contains_char sep (c ∷ cs) = let rest = contains_char sep cs in if c == sep then true else rest

-- A line that ends in `\n` loses a `\r` in front of that as well.
without_return : Text → Text
without_return s = elim (reverse s) [
  | [] ↦ []
  | c ∷ before ↦ if c == 0x0d then reverse before else s
]

lines_behind : Text → Text → List Text
unfolding without_return
lines_behind current [] = elim current [ [] ↦ [] | c ∷ cs ↦ (c ∷ cs) ∷ [] ]
lines_behind current (c ∷ cs) =
    let next = lines_behind [] cs in
    let longer = lines_behind (current ++ c ∷ []) cs in
    if c == 0x0a then without_return current ∷ next else longer

unfoldable pub lines : Text → List Text
unfolding lines_behind
lines s = lines_behind [] s
