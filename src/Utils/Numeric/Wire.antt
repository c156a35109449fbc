-- ===== src/Utils/Numeric/Wire.antt =====
-- PostgreSQL's binary `numeric`, as `pg_numeric_to_string` of utils/format.rs reads it.
use pg_x.Base.{
  ◌/◌, ◌%◌, ℕ, zero, suc, ◌+◌, ◌-◌, ◌*◌, ◌<◌, ◌≤◌, ◌≡◌, inl, inr, Bool-cases, refl, ap, ◌∙◌, some,
  List, [], ◌∷◌, ◌++◌, Bool, true, false, ltb, if◌then◌else◌, All, length, length-append, take,
  drop, arith,
}
use pg_x.Base.Int.{ℤ, pos, InRange, to_signed, to_unsigned, to_unsigned-lt, to_signed-to_unsigned}
use pg_x.Text.{Bytes, Text}
use pg_x.Word.{to_be_bytes, u16_roundtrip, u16_mod}
use pg_x.Utils.Numeric.{
  zeros, four, word, padded, digit_texts, scaled, parts, or_zero, assembled, finite, by_sign,
  with_counts, pg_numeric_to_string,
}
use pg_x.Utils.Numeric.Digits.{parts-IsDigit}
use pg_x.Utils.Numeric.Value.{
  IsDigit, decimal_onto, Rounded, int_chars, leading, parts-Rounded, length-zeros,
}

abbrev words : List ℕ → Bytes
words [] = []
words (d ∷ ds) = to_be_bytes 2 d ++ words ds

-- `numeric_send`: the counts, the weight, the sign, the scale, and the digits to the base 10000.
unfoldable pub numeric_wire : (negative : Bool) (weight : ℤ) (dscale : ℕ) → List ℕ → Bytes
numeric_wire negative weight dscale ds =
    to_be_bytes 2 (length ds)
    ++ (to_be_bytes 2 (to_unsigned u16_mod weight)
        ++ (to_be_bytes 2 (if negative then 0x4000 else 0) ++ (to_be_bytes 2 dscale ++ words ds)))

-- The number that the digits stand for, behind another.
abbrev pub base_10000 : ℕ → List ℕ → ℕ
base_10000 acc [] = acc
base_10000 acc (d ∷ ds) = base_10000 (acc * 10000 + d) ds

abbrev fours : List ℕ → Text
fours [] = []
fours (d ∷ ds) = four d ++ fours ds

fours-decimal :
    (acc : ℕ) (ds : List ℕ)
    → All (λ d. d < 10000) ds
    → decimal_onto acc (fours ds) ≡ base_10000 acc ds
unfolding decimal_onto
fours-decimal acc [] h = refl
fours-decimal acc (d ∷ ds) (l, h) = four_step acc d l (λ n. fours-decimal n ds h)
  where
    four_step :
        (acc d : ℕ)
        → d < 10000
        → ((n : ℕ) → decimal_onto n (fours ds) ≡ base_10000 n ds)
        → decimal_onto acc (four d ++ fours ds) ≡ base_10000 (acc * 10000 + d) ds
    four_step acc d l rest = rest _ ∙ ap (λ n. base_10000 n ds) (omega arith)

mod_ten-IsDigit : (k : ℕ) → IsDigit (b'0' + k % 10)
mod_ten-IsDigit k = (omega arith, omega arith)

fours-IsDigit : (ds : List ℕ) → All IsDigit (fours ds)
fours-IsDigit [] = tt
fours-IsDigit (d ∷ ds) = (
  mod_ten-IsDigit (d / 1000),
  (mod_ten-IsDigit (d / 100), (mod_ten-IsDigit (d / 10), (mod_ten-IsDigit d, fours-IsDigit ds))),
)

length-fours : (ds : List ℕ) → length (fours ds) ≡ length ds * 4
length-fours [] = refl
length-fours (d ∷ ds) = omega (arith, length-fours ds)

length-words : (ds : List ℕ) → length (words ds) ≡ length ds * 2
unfolding to_be_bytes
length-words [] = refl
length-words (d ∷ ds) = omega (arith, length-words ds)

-- A word in front is read.
word_lem : (x : ℕ) (rest : Bytes) → x < u16_mod → word (to_be_bytes 2 x ++ rest) ≡ x
unfolding to_be_bytes
word_lem x rest h = u16_roundtrip x h

positive : (x : ℕ) → x + x < u16_mod → to_signed u16_mod x ≡ pos x
unfolding to_signed
positive x h = ground arith

padded-digit : (d : ℕ) → d < 10000 → padded (to_signed u16_mod d) ≡ four d
unfolding padded
padded-digit d h =
    let small : ltb d 10000 ≡ true = ground arith in rw (positive d (omega arith), small) refl

digit_texts_step :
    (n d : ℕ) (raw : Bytes) (rest : Text)
    → d < 10000
    → digit_texts n raw ≡ some rest
    → digit_texts (suc n) (to_be_bytes 2 d ++ raw) ≡ some (four d ++ rest)
unfolding digit_texts to_be_bytes
digit_texts_step n d raw rest l e =
    let w = word_lem d raw (omega arith) in rw (e, w, padded-digit d l) refl

digit_texts-words :
    (ds : List ℕ) → All (λ d. d < 10000) ds → digit_texts (length ds) (words ds) ≡ some (fours ds)
unfolding digit_texts
digit_texts-words [] h = refl
digit_texts-words (d ∷ ds) (l, h) =
    digit_texts_step (length ds) d (words ds) (fours ds) l (digit_texts-words ds h)

by_sign-finite :
    (negative : Bool) (ds : List ℕ) (dscale : ℕ) (weight : ℤ)
    → All (λ d. d < 10000) ds
    → by_sign (if negative then 0x4000 else 0) (length ds) dscale weight (words ds)
      ≡ some (finite negative weight dscale (fours ds))
unfolding by_sign
by_sign-finite true ds dscale weight h = rw (digit_texts-words ds h) refl
by_sign-finite false ds dscale weight h = rw (digit_texts-words ds h) refl

length-take : (n : ℕ) (t : Text) → n ≤ length t → length (take n t) ≡ n
length-take zero t h = refl
length-take (suc n) [] h = absurd (omega arith)
length-take (suc n) (c ∷ t) h = ap suc (length-take n t (omega arith))

length-scaled : (s : ℕ) (frac : Text) → length (scaled s frac) ≡ s
unfolding scaled
length-scaled s frac = elim (Bool-cases (ltb s (length frac))) [
  | inl cut ↦ rw cut (length-take s frac (ground arith))
  | inr pad ↦
      let l = length-append frac (zeros (s - length frac)) in
      let z = length-zeros (s - length frac) in rw pad (ground arith)
]

sign_lt : (negative : Bool) → (if negative then 0x4000 else 0) < u16_mod
sign_lt true = omega arith
sign_lt false = omega arith

counts-eq :
    (n dscale sign : ℕ) (weight : ℤ) (raw : Bytes)
    → n + n < u16_mod
    → dscale + dscale < u16_mod
    → InRange u16_mod weight
    → with_counts
        (to_signed u16_mod n)
        (to_signed u16_mod (to_unsigned u16_mod weight))
        (to_signed u16_mod dscale)
        sign
        raw
      ≡ with_counts (pos n) weight (pos dscale) sign raw
counts-eq n dscale sign weight raw hn hs hw =
    rw (positive n hn, positive dscale hs, to_signed-to_unsigned u16_mod weight hw) refl

reads_wire :
    (negative : Bool) (weight : ℤ) (dscale : ℕ) (ds : List ℕ)
    → InRange u16_mod weight
    → dscale + dscale < u16_mod
    → length ds + length ds < u16_mod
    → All (λ d. d < 10000) ds
    → pg_numeric_to_string (numeric_wire negative weight dscale ds)
      ≡ some (finite negative weight dscale (fours ds))
unfolding pg_numeric_to_string with_counts numeric_wire to_be_bytes
reads_wire negative weight dscale ds hw hs hn h =
    let sign : ℕ = if negative then 0x4000 else 0 in
    let raw = numeric_wire negative weight dscale ds in
    let len : length raw ≡ 8 + length ds * 2 = omega (arith, length-words ds) in
    let long : ltb (length raw) 8 ≡ false = ground arith in
    let all : ltb (length raw) (8 + length ds * 2) ≡ false = ground arith in
    let w1 : word raw ≡ length ds = word_lem (length ds) (drop 2 raw) (omega arith) in
    let w2 : word (drop 2 raw) ≡ to_unsigned u16_mod weight =
      word_lem (to_unsigned u16_mod weight) (drop 4 raw) (to_unsigned-lt 65535 weight) in
    let w3 : word (drop 4 raw) ≡ sign = word_lem sign (drop 6 raw) (sign_lt negative) in
    let w4 : word (drop 6 raw) ≡ dscale = word_lem dscale (words ds) (omega arith) in
    rw (pg_numeric_to_string, long, w1, w2, w3, w4)
      (counts-eq (length ds) dscale sign weight raw hn hs hw
        ∙ rw (with_counts, all) (by_sign-finite negative ds dscale weight h))

-- A value of PostgreSQL is read as a sign, decimal digits before the point, and exactly as many behind
-- it as its scale says; together they are the value, with the further digits cut off.
pub pg_numeric_to_string-wire :
    (negative : Bool) (weight : ℤ) (dscale : ℕ) (ds : List ℕ)
    → InRange u16_mod weight
    → dscale + dscale < u16_mod
    → length ds + length ds < u16_mod
    → All (λ d. d < 10000) ds
    → (integer frac : Text) × (pg_numeric_to_string (numeric_wire negative weight dscale ds)
        ≡ some (assembled negative dscale integer frac))
      × (All IsDigit integer)
      × (All IsDigit frac)
      × (length frac ≡ dscale)
      × Rounded
          (base_10000 0 ds)
          (int_chars weight + dscale)
          (length ds * 4 + leading weight)
          (decimal_onto 0 (integer ++ frac))
unfolding finite
pg_numeric_to_string-wire negative weight dscale ds hw hs hn h =
    let (integer, frac) = parts weight (fours ds) in
    let value = parts-Rounded weight (fours ds) dscale (fours-IsDigit ds) in
    let (before, behind) = parts-IsDigit weight (fours ds) dscale (fours-IsDigit ds) in
    (
      or_zero integer,
      scaled dscale frac,
      reads_wire negative weight dscale ds hw hs hn h,
      before,
      behind,
      length-scaled dscale frac,
      rw (fours-decimal 0 ds h, length-fours ds) at value,
    )
