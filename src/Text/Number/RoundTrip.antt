-- ===== src/Text/Number/RoundTrip.antt =====
-- Printing a number in base 16 and reading it.
use native.Mathlib.Nat.{zero-add}
use pg_x.Base.{
  ap, ltb→lt, lt→ltb, ==_iff, ℕ, zero, suc, ◌+◌, ◌*◌, ◌/◌, ◌%◌, ◌<◌, ◌≡◌, ◌≢◌, refl, ◌∙◌, some, [],
  ◌∷◌, arith, ltb, ◌==◌, All, Bool-cases, inl, inr,
}
use pg_x.Text.{Text}
use pg_x.Text.Number.{
  digit, digits_onto, print_hex, print_radix, to_digit, read_digits, from_str_radix,
}

to_digit-digit : (d : ℕ) → d < 16 → to_digit 16 (digit d) ≡ some d
unfolding to_digit digit
to_digit-digit d h = ground arith

-- The bytes that a printed number is made of.
pub record IsHex (c : ℕ) : Type 0 where
  pub ne_slash : c ≢ b'/'
  pub ne_plus : c ≢ b'+'

digit-IsHex : (d : ℕ) → IsHex (digit d)
unfolding digit
digit-IsHex d = ground arith

digits_onto-IsHex : (f n : ℕ) (rest : Text) → All IsHex rest → All IsHex (digits_onto 16 f n rest)
unfolding digits_onto
digits_onto-IsHex zero n rest h = h
digits_onto-IsHex (suc f) n rest h = elim (Bool-cases (ltb n 16)) [
  | inl e ↦ rw (e, digits_onto) (digit-IsHex n, h)
  | inr e ↦
      rw (e, digits_onto)
        (digits_onto-IsHex f (n / 16) (digit (n % 16) ∷ rest) (digit-IsHex (n % 16), h))
]

pub print_hex-IsHex : (n : ℕ) → All IsHex (print_hex n)
unfolding print_radix
print_hex-IsHex n = digits_onto-IsHex (suc n) n [] tt

read_digits_step :
    (limit acc d : ℕ) (rest : Text)
    → d < 16
    → acc * 16 + d < limit
    → read_digits limit 16 acc (digit d ∷ rest) ≡ read_digits limit 16 (acc * 16 + d) rest
unfolding read_digits
read_digits_step limit acc d rest h lt =
    rw (to_digit-digit d h, read_digits) (rw (lt→ltb (acc * 16 + d) limit lt))

-- Reading the digits of `n` from nothing has read `n`.
read_digits-digits_onto :
    (limit f n : ℕ) (rest : Text)
    → n < f
    → n < limit
    → read_digits limit 16 0 (digits_onto 16 f n rest) ≡ read_digits limit 16 n rest
unfolding digits_onto
read_digits-digits_onto limit zero n rest h lt = absurd (omega arith)
read_digits-digits_onto limit (suc f) n rest h lt = elim (Bool-cases (ltb n 16)) [
  | inl e ↦ rw e (
      read_digits_step limit 0 n rest (ltb→lt n 16 e) (omega arith)
      ∙ ap (λ k. read_digits limit 16 k rest) (zero-add n))
  | inr e ↦
      let parts : n / 16 * 16 + n % 16 ≡ n = omega arith in
      rw e (
        read_digits-digits_onto limit f (n / 16) (digit (n % 16) ∷ rest) (ground arith)
          (omega arith)
        ∙ read_digits_step limit (n / 16) (n % 16) rest (omega arith) (omega arith)
        ∙ ap (λ k. read_digits limit 16 k rest) parts)
]

read_digits-print_hex : (limit n : ℕ) → n < limit → read_digits limit 16 0 (print_hex n) ≡ some n
unfolding print_radix read_digits
read_digits-print_hex limit n h = read_digits-digits_onto limit (suc n) n [] (omega arith) h

-- Digits without a sign are read as they stand.
from_str_radix-IsHex :
    (limit : ℕ) (s : Text) {n : ℕ}
    → All IsHex s
    → read_digits limit 16 0 s ≡ some n
    → s ≢ []
    → from_str_radix limit 16 s ≡ some n
unfolding from_str_radix
from_str_radix-IsHex limit [] h e ne = absurd (ne refl)
from_str_radix-IsHex limit (c ∷ cs) h e ne = elim (Bool-cases (c == b'+')) [
  | inl p ↦ absurd (h.0.ne_plus ((==_iff c b'+').0 p))
  | inr p ↦ rw p e
]

digits_onto-ne-nil : (f n c : ℕ) (rest : Text) → digits_onto 16 f n (c ∷ rest) ≢ []
unfolding digits_onto
digits_onto-ne-nil zero n c rest h = cc
digits_onto-ne-nil (suc f) n c rest h =
    ground (arith, digits_onto-ne-nil f (n / 16) (digit (n % 16)) (c ∷ rest))

print_hex-ne-nil : (n : ℕ) → print_hex n ≢ []
unfolding print_radix digits_onto
print_hex-ne-nil n h = ground (arith, digits_onto-ne-nil n (n / 16) (digit (n % 16)) [])

-- `{:X}` is read back by `from_str_radix`.
pub from_str_radix-print_hex :
    (limit n : ℕ) → n < limit → from_str_radix limit 16 (print_hex n) ≡ some n
from_str_radix-print_hex limit n h =
    from_str_radix-IsHex limit (print_hex n) (print_hex-IsHex n) (read_digits-print_hex limit n h)
      (print_hex-ne-nil n)
