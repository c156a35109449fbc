-- ===== src/Text/Split/Trimmed.antt =====
-- Texts that `trim` leaves as they are.
use mathlib.Core.List.{reverse, reverse-append, reverse-cons, reverse-reverse, append_assoc}
use pg_x.Base.{
  ℕ, suc, ltb, ◌||◌, ◌&&◌, ◌==◌, ◌≤◌, ◌≡◌, refl, sym, ap, ◌∙◌, inl, inr, Bool-cases, Option-cases,
  length-append, none, some, List, [], ◌∷◌, ◌++◌, Bool, true, false, length, arith,
}
use pg_x.Text.{Text}
use pg_x.Text.Split.{spaces, strip_prefix, strip_any, strip_all, reverse_all, trim, trim_start}

-- A visible character of ASCII.
abbrev pub IsPlain : ℕ → Type 0
IsPlain c = (0x21 ≤ c) × (c ≤ 0x7e)

outside : Text → Bool
outside [] = false
outside (x ∷ xs) = ltb x 0x21 || ltb 0x7e x

all_outside : List Text → Bool
all_outside [] = true
all_outside (p ∷ ps) = outside p && all_outside ps

strip_any-plain :
    (c : ℕ) (cs : Text) (ps : List Text)
    → IsPlain c
    → all_outside ps ≡ true
    → strip_any ps (c ∷ cs) ≡ none
unfolding strip_any strip_prefix all_outside outside
strip_any-plain c cs [] h e = refl
strip_any-plain c cs ([] ∷ ps) h e = cc
strip_any-plain c cs ((x ∷ xs) ∷ ps) h e = ground (arith, strip_any-plain c cs ps h)

strip_all-plain :
    (f c : ℕ) (cs : Text) (ps : List Text)
    → IsPlain c
    → all_outside ps ≡ true
    → strip_all f ps (c ∷ cs) ≡ c ∷ cs
unfolding strip_all
strip_all-plain ℕ.zero c cs ps h e = refl
strip_all-plain (suc f) c cs ps h e = rw (strip_all, strip_any-plain c cs ps h e) refl

spaces_outside : all_outside spaces ≡ true
unfolding all_outside outside
spaces_outside = refl

reversed_outside : all_outside (reverse_all spaces) ≡ true
unfolding all_outside outside reverse_all
reversed_outside = refl

abbrev pub StartsPlain : Text → Type 0
StartsPlain s = (c : ℕ) × (cs : Text) × (s ≡ c ∷ cs) × IsPlain c

abbrev pub EndsPlain : Text → Type 0
EndsPlain s = (init : Text) × (c : ℕ) × (s ≡ init ++ c ∷ []) × IsPlain c

pub EndsPlain-append : (s t : Text) → EndsPlain t → EndsPlain (s ++ t)
EndsPlain-append s t (init, c, e, h) =
    (s ++ init, c, ap (λ u. s ++ u) e ∙ sym (append_assoc s init (c ∷ [])), h)

pub trim_lem : (s : Text) → StartsPlain s → EndsPlain s → trim s ≡ s
unfolding trim
trim_lem s (c, cs, starts, h) (init, d, ends, k) =
    let front : strip_all (length s) spaces s ≡ s =
      rw starts (strip_all-plain (length (c ∷ cs)) c cs spaces h spaces_outside) in
    let back : reverse s ≡ d ∷ reverse init = ap reverse ends ∙ reverse-append init (d ∷ []) in
    let behind : strip_all (length s) (reverse_all spaces) (reverse s) ≡ reverse s =
      rw back
        (strip_all-plain (length s) d (reverse init) (reverse_all spaces) k reversed_outside) in
    rw (trim, front, behind) (reverse-reverse s)

pub trim_start_lem : (s : Text) → StartsPlain s → trim_start s ≡ s
unfolding trim_start
trim_start_lem s (c, cs, starts, h) =
    rw starts (strip_all-plain (length (c ∷ cs)) c cs spaces h spaces_outside)

pub trim-nil : trim [] ≡ []
unfolding trim
trim-nil = refl

pub strip_prefix-le : (p s rest : Text) → strip_prefix p s ≡ some rest → length rest ≤ length s
unfolding strip_prefix
strip_prefix-le [] s rest e = let same : s ≡ rest = cc e in omega (arith, ap (length {A = ℕ}) same)
strip_prefix-le (p ∷ ps) [] rest e = cc
strip_prefix-le (p ∷ ps) (c ∷ cs) rest e = elim (Bool-cases (p == c)) [
  | inl same ↦ omega (arith, strip_prefix-le ps cs rest (rw same at e))
  | inr other ↦ absurd (ground (arith, other, e))
]

strip_any-le :
    (ps : List Text) (s rest : Text) → strip_any ps s ≡ some rest → length rest ≤ length s
unfolding strip_any
strip_any-le [] s rest e = cc
strip_any-le (p ∷ ps) s rest e = elim (Option-cases (strip_prefix p s)) [
  | inl absent ↦ strip_any-le ps s rest (ground (arith, absent, e))
  | inr (r, there) ↦
      let same : r ≡ rest = ground (arith, there, e) in
      strip_prefix-le p s rest (there ∙ ap some same)
]

strip_all-le : (f : ℕ) (ps : List Text) (s : Text) → length (strip_all f ps s) ≤ length s
unfolding strip_all
strip_all-le ℕ.zero ps s = omega arith
strip_all-le (suc f) ps s = elim (Option-cases (strip_any ps s)) [
  | inl absent ↦ rw (strip_all, absent) (omega arith)
  | inr (rest, there) ↦
      rw (strip_all, there) (omega (arith, strip_all-le f ps rest, strip_any-le ps s rest there))
]

length-reverse : (s : Text) → length (reverse s) ≡ length s
length-reverse [] = refl
length-reverse (c ∷ s) =
    ap (length {A = ℕ}) (reverse-cons c s)
    ∙ omega (arith, length-append (reverse s) (c ∷ []), length-reverse s)

pub length-trim : (s : Text) → length (trim s) ≤ length s
unfolding trim
length-trim s =
    let front = strip_all (length s) spaces s in
    omega (
      arith,
      strip_all-le (length s) spaces s,
      length-reverse front,
      strip_all-le (length front) (reverse_all spaces) (reverse front),
      length-reverse (strip_all (length front) (reverse_all spaces) (reverse front)),
    )

pub length-trim_start : (s : Text) → length (trim_start s) ≤ length s
unfolding trim_start
length-trim_start s = strip_all-le (length s) spaces s
