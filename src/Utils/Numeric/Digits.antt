-- ===== src/Utils/Numeric/Digits.antt =====
-- The parts of the decimal text that `pg_numeric_to_string` of utils/format.rs gives are digits.
use pg_x.Base.{
  ℕ, zero, suc, ◌+◌, ◌-◌, ◌*◌, ◌==◌, inl, inr, Bool-cases, [], ◌∷◌, ◌++◌, ltb, leb, All, length,
  take, drop, arith,
}
use pg_x.Base.Int.{ℤ, pos, negsuc}
use pg_x.Text.{Text}
use pg_x.Utils.Numeric.{zeros, trim_zeros, parts, scaled, or_zero}
use pg_x.Utils.Numeric.Value.{IsDigit, All-drop, zeros-IsDigit}

All-take : (n : ℕ) (t : Text) → All IsDigit t → All IsDigit (take n t)
All-take zero t h = tt
All-take (suc n) [] h = tt
All-take (suc n) (c ∷ t) (d, h) = (d, All-take n t h)

padded-IsDigit : (t : Text) (n : ℕ) → All IsDigit t → All IsDigit (t ++ zeros n)
padded-IsDigit [] zero h = tt
padded-IsDigit [] (suc n) h = ((omega arith, omega arith), padded-IsDigit [] n tt)
padded-IsDigit (c ∷ t) n (d, h) = (d, padded-IsDigit t n h)

trimmed-IsDigit : (t : Text) → All IsDigit t → All IsDigit (trim_zeros t)
unfolding trim_zeros
trimmed-IsDigit [] h = tt
trimmed-IsDigit (c ∷ t) (d, h) = elim (Bool-cases (c == b'0')) [
  | inl e ↦ rw e (trimmed-IsDigit t h)
  | inr e ↦ rw e (d, h)
]

or_zero-IsDigit : (t : Text) → All IsDigit t → All IsDigit (or_zero t)
or_zero-IsDigit [] h = ((omega arith, omega arith), tt)
or_zero-IsDigit (c ∷ t) h = h

scaled-IsDigit : (s : ℕ) (t : Text) → All IsDigit t → All IsDigit (scaled s t)
unfolding scaled
scaled-IsDigit s t h = elim (Bool-cases (ltb s (length t))) [
  | inl cut ↦ rw cut (All-take s t h)
  | inr pad ↦ rw pad (padded-IsDigit t (s - length t) h)
]

-- Digits in, digits out, on both sides of the point.
pub parts-IsDigit :
    (weight : ℤ) (digits : Text) (s : ℕ)
    → All IsDigit digits
    → All IsDigit (or_zero (parts weight digits).0) × All IsDigit (scaled s (parts weight digits).1)
unfolding parts
parts-IsDigit (negsuc m) digits s h = (
  ((omega arith, omega arith), tt),
  scaled-IsDigit s (zeros (m * 4) ++ digits) (zeros-IsDigit (m * 4) digits h),
)
parts-IsDigit (pos w) digits s h =
    let k = (w + 1) * 4 in
    elim (Bool-cases (leb (length digits) k)) [
      | inl fits ↦
          let t = digits ++ zeros (k - length digits) in
          rw fits (
            or_zero-IsDigit (trim_zeros t)
                (trimmed-IsDigit t (padded-IsDigit digits (k - length digits) h)),
            scaled-IsDigit s [] tt,
          )
      | inr split ↦
          let t = take k digits in
          rw split (
            or_zero-IsDigit (trim_zeros t) (trimmed-IsDigit t (All-take k digits h)),
            scaled-IsDigit s (drop k digits) (All-drop k digits h),
          )
    ]
