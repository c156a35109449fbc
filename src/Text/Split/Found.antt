-- ===== src/Text/Split/Found.antt =====
-- `split_once` and `split` on a text with a known first separator, and on one without.
use pg_x.Base.{
  ℕ, ◌<◌, ◌==◌, ◌≡◌, ◌≢◌, refl, ap, none, some, [], ◌∷◌, ◌++◌, All, arith, length, inl, inr,
  Bool-cases, Option-cases,
}
use pg_x.Text.{Text}
use pg_x.Text.Split.{split_once, split, add_char}

pub split_once_absent : (sep : ℕ) (s : Text) → All (λ c. c ≢ sep) s → split_once sep s ≡ none
unfolding split_once
split_once_absent sep [] h = refl
split_once_absent sep (c ∷ s) h = ground (arith, split_once_absent sep s h.1, h.0)

pub split_once_found :
    (sep : ℕ) (s rest : Text)
    → All (λ c. c ≢ sep) s
    → split_once sep (s ++ sep ∷ rest) ≡ some (s, rest)
unfolding split_once
split_once_found sep [] rest h = ground arith
split_once_found sep (c ∷ s) rest h = ground (arith, split_once_found sep s rest h.1, h.0)

pub split_absent : (sep : ℕ) (s : Text) → All (λ c. c ≢ sep) s → split sep s ≡ s ∷ []
unfolding split add_char
split_absent sep [] h = refl
split_absent sep (c ∷ s) h = ground (arith, split_absent sep s h.1, h.0)

pub split_found :
    (sep : ℕ) (s rest : Text)
    → All (λ c. c ≢ sep) s
    → split sep (s ++ sep ∷ rest) ≡ s ∷ split sep rest
unfolding split add_char
split_found sep [] rest h = ground arith
split_found sep (c ∷ s) rest h = ground (arith, split_found sep s rest h.1, h.0)

pub split_once-lt :
    (sep : ℕ) (s before behind : Text)
    → split_once sep s ≡ some (before, behind)
    → length behind < length s
unfolding split_once
split_once-lt sep [] before behind e = cc
split_once-lt sep (c ∷ s) before behind e = elim (Bool-cases (c == sep)) [
  | inl here ↦
      let same : s ≡ behind = ground (arith, here, e) in omega (arith, ap (length {A = ℕ}) same)
  | inr later ↦ elim (Option-cases (split_once sep s)) [
    | inl absent ↦ absurd (ground (arith, later, absent, e))
    | inr ((a, b), there) ↦
        let same : b ≡ behind = ground (arith, later, there, e) in
        omega (arith, split_once-lt sep s a b there, ap (length {A = ℕ}) same)
  ]
]
