-- ===== src/Graphql/Schema/Names.antt =====
-- The type names that graphql/schema.rs collects before it reads the types.
use pg_x.Base.{
  if◌then◌else◌, false, Bool, ℕ, zero, suc, ◌<◌, ◌==◌, ◌≡◌, refl, inl, inr, Bool-cases,
  Option-cases, some, List, [], ◌∷◌, ◌++◌, true, length, arith,
}
use pg_x.Map.{text_key, text_eq_iff}
use pg_x.Text.{Text}
use pg_x.Text.Split.{split_once, strip_prefix, trim, trim_start}
use pg_x.Text.Split.Trimmed.{StartsPlain, trim_start_lem, strip_prefix-le, length-trim_start}
use pg_x.Text.Split.Found.{split_once-lt}
use pg_x.Text.Ends.{starts_with}
use pg_x.Graphql.TypeBody.{type_keyword, one_of}
use pg_x.Graphql.Schema.{keyword_of, before_brace, names_of_line, type_name_of}

pub one_of-append_left :
    (xs ys : List Text) (s : Text) → one_of xs s ≡ true → one_of (xs ++ ys) s ≡ true
unfolding one_of
one_of-append_left [] ys s h = cc
one_of-append_left (x ∷ xs) ys s h = ground (arith, h, one_of-append_left xs ys s)

pub one_of-append_right :
    (xs ys : List Text) (s : Text) → one_of ys s ≡ true → one_of (xs ++ ys) s ≡ true
unfolding one_of
one_of-append_right [] ys s h = h
one_of-append_right (x ∷ xs) ys s h = ground (arith, one_of-append_right xs ys s h)

one_of-cons : (s : Text) (names : List Text) → one_of (s ∷ names) s ≡ true
unfolding one_of
one_of-cons s names = let same = (text_eq_iff s s).1 refl in rw (one_of, same) refl

begins_plain : (s rest : Text) → strip_prefix type_keyword s ≡ some rest → StartsPlain s
unfolding strip_prefix
begins_plain [] rest e = cc
begins_plain (c ∷ cs) rest e = elim (Bool-cases (b't' == c)) [
  | inl same ↦ (c, cs, refl, (ground (arith, same), ground (arith, same)))
  | inr other ↦ absurd (ground (arith, other, e))
]

-- A line that begins with a type gives this type's name.
pub begun :
    (s : Text)
    → starts_with type_keyword s ≡ true
    → one_of (names_of_line (suc (length s)) s) (type_name_of s) ≡ true
unfolding names_of_line type_name_of starts_with
begun s e = elim (Option-cases (strip_prefix type_keyword s)) [
  | inl absent ↦ absurd (ground (arith, absent, e))
  | inr (rest, there) ↦
      let plain = trim_start_lem s (begins_plain s rest there) in
      rw (names_of_line, plain, there, type_name_of) (one_of-cons (trim (before_brace rest)) _)
]

-- A line begins with the word.
unfoldable pub begun_by : List Text → Text → Bool
begun_by [] w = false
begun_by (line ∷ ls) w =
    let rest = begun_by ls w in if starts_with w (trim line) then true else rest

pub begun_by-append_left :
    (xs ys : List Text) (w : Text) → begun_by xs w ≡ true → begun_by (xs ++ ys) w ≡ true
unfolding begun_by
begun_by-append_left [] ys w h = cc
begun_by-append_left (x ∷ xs) ys w h = ground (arith, h, begun_by-append_left xs ys w)

pub begun_by-append_right :
    (xs ys : List Text) (w : Text) → begun_by ys w ≡ true → begun_by (xs ++ ys) w ≡ true
unfolding begun_by
begun_by-append_right [] ys w h = h
begun_by-append_right (x ∷ xs) ys w h = ground (arith, begun_by-append_right xs ys w h)

pub keyword_of-some :
    (kws : List Text) (trimmed kw : Text)
    → keyword_of kws trimmed ≡ some kw
    → (one_of kws kw ≡ true) × (starts_with kw trimmed ≡ true)
unfolding keyword_of
keyword_of-some [] trimmed kw e = cc
keyword_of-some (k ∷ kws) trimmed kw e = elim (Bool-cases (starts_with k trimmed)) [
  | inl here ↦
      let same : k ≡ kw = ground (arith, here, e) in (rw same (one_of-cons kw kws), rw same at here)
  | inr other ↦
      let (known, begins) = keyword_of-some kws trimmed kw (rw other at e) in
      (one_of-append_right (k ∷ []) kws kw known, begins)
]

-- Any two amounts of fuel above the line's length give the same names.
names_of_line-same :
    (fuel fuel' : ℕ) (s : Text)
    → length s < fuel
    → length s < fuel'
    → names_of_line fuel s ≡ names_of_line fuel' s
unfolding names_of_line
names_of_line-same zero fuel' s h k = absurd (omega arith)
names_of_line-same (suc fuel) zero s h k = absurd (omega arith)
names_of_line-same (suc fuel) (suc fuel') s h k =
    elim (Option-cases (strip_prefix type_keyword (trim_start s))) [
      | inl absent ↦ rw (names_of_line, absent) refl
      | inr (after_type, there) ↦ elim (Option-cases (split_once b'}' after_type)) [
        | inl last ↦ rw (names_of_line, there, last) refl
        | inr ((body, behind), closed) ↦
            let shorter : length behind < length s = omega (
              arith,
              length-trim_start s,
              strip_prefix-le type_keyword (trim_start s) after_type there,
              split_once-lt b'}' after_type body behind closed,
            ) in
            let same =
              names_of_line-same fuel fuel' behind (omega (arith, shorter))
                (omega (arith, shorter)) in
            rw (names_of_line, there, closed, same) refl
      ]
    ]
