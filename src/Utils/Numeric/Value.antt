-- ===== src/Utils/Numeric/Value.antt =====
-- The value of the decimal text that `pg_numeric_to_string` of utils/format.rs gives.
use mathlib.Core.List.{append-nil, append_assoc}
use native.Mathlib.Nat.{pow-suc, mul-le-mul_right, mul-lt-mul_of_pos_right}
use pg_x.Base.{
  ℕ, zero, suc, ◌+◌, ◌-◌, ◌*◌, ◌^◌, ◌<◌, ◌≤◌, ◌≡◌, refl, sym, ap, ◌∙◌, [], ◌∷◌, ◌++◌, ltb, ltb→lt,
  leb, ◌==◌, inl, inr, Bool-cases, All, length, length-append, length-drop, take, drop, arith,
}
use pg_x.Base.Int.{ℤ, pos, negsuc}
use pg_x.Text.{Text}
use pg_x.Utils.Numeric.{zeros, trim_zeros, parts, scaled, or_zero}

-- The number that a text of decimal digits stands for, behind another.
unfoldable pub decimal_onto : ℕ → Text → ℕ
decimal_onto acc [] = acc
decimal_onto acc (c ∷ cs) = decimal_onto (acc * 10 + (c - b'0')) cs

onto-append :
    (acc : ℕ) (a b : Text) → decimal_onto acc (a ++ b) ≡ decimal_onto (decimal_onto acc a) b
unfolding decimal_onto
onto-append acc [] b = refl
onto-append acc (c ∷ a) b = onto-append (acc * 10 + (c - b'0')) a b

shift_step :
    (acc d p v : ℕ) {x y : ℕ}
    → x ≡ (acc * 10 + d) * p + v
    → y ≡ (0 * 10 + d) * p + v
    → x ≡ acc * (p * 10) + y
shift_step acc d p v high low = grind arith

lt_step : (d p v : ℕ) {x : ℕ} → x ≡ (0 * 10 + d) * p + v → v < p → d < 10 → x < p * 10
lt_step d p v e small digit =
    let most : d * p ≤ 9 * p = mul-le-mul_right p (omega arith) in grind arith

onto-shift : (acc : ℕ) (t : Text) → decimal_onto acc t ≡ acc * 10 ^ length t + decimal_onto 0 t
unfolding decimal_onto
onto-shift acc [] = omega arith
onto-shift acc (c ∷ t) = rw (pow-suc 10 (length t)) (
    shift_step acc (c - b'0') (10 ^ length t) (decimal_onto 0 t)
      (onto-shift (acc * 10 + (c - b'0')) t) (onto-shift (0 * 10 + (c - b'0')) t))

onto-zeros : (n : ℕ) → decimal_onto 0 (zeros n) ≡ 0
unfolding decimal_onto
onto-zeros zero = refl
onto-zeros (suc n) = onto-zeros n

pub length-zeros : (n : ℕ) → length (zeros n) ≡ n
length-zeros zero = refl
length-zeros (suc n) = ap suc (length-zeros n)

onto-trim_zeros : (t : Text) → decimal_onto 0 (or_zero (trim_zeros t)) ≡ decimal_onto 0 t
unfolding decimal_onto trim_zeros
onto-trim_zeros [] = refl
onto-trim_zeros (c ∷ t) = elim (Bool-cases (c == b'0')) [
  | inl e ↦ rw e (let same : c ≡ b'0' = ground arith in rw same (onto-trim_zeros t))
  | inr e ↦ rw e refl
]

-- The digits of `0` to `9`.
abbrev pub IsDigit : ℕ → Type 0
IsDigit c = (b'0' ≤ c) × (c < b'0' + 10)

onto-lt : (t : Text) → All IsDigit t → decimal_onto 0 t < 10 ^ length t
unfolding decimal_onto
onto-lt [] h = omega arith
onto-lt (c ∷ t) ((low, high), h) = rw (pow-suc 10 (length t)) (
    lt_step (c - b'0') (10 ^ length t) (decimal_onto 0 t) (onto-shift (0 * 10 + (c - b'0')) t)
      (onto-lt t h) (omega arith))

pow_add : (a b : ℕ) → 10 ^ (a + b) ≡ 10 ^ a * 10 ^ b
pow_add a zero = let z : a + 0 ≡ a = omega arith in rw z (omega arith)
pow_add a (suc b) =
    let e = pow_add a b in
    let next : a + suc b ≡ suc (a + b) = omega arith in
    let l = pow-suc 10 (a + b) in let r = pow-suc 10 b in rw (next, r) (grind arith)

pow_pos : (n : ℕ) → 0 < 10 ^ n
pow_pos zero = omega arith
pow_pos (suc n) = let e = pow-suc 10 n in let h = pow_pos n in omega arith

-- `out` is `v * 10 ^ up / 10 ^ down`, rounded down.
unfoldable pub Rounded : (v up down out : ℕ) → Type 0
Rounded v up down out = (r : ℕ) × (v * 10 ^ up ≡ out * 10 ^ down + r) × (r < 10 ^ down)

times_step : (v u out d r p : ℕ) → v * u ≡ out * d + r → v * (u * p) ≡ out * (d * p) + r * p
times_step v u out d r p e =
    let k : v * u * p ≡ (out * d + r) * p = ap (λ x. x * p) e in grind arith

-- Both powers grow together.
Rounded-add : (v up down out n : ℕ) → Rounded v up down out → Rounded v (up + n) (down + n) out
unfolding Rounded
Rounded-add v up down out n (r, e, l) =
    rw (pow_add up n, pow_add down n)
      (
        r * 10 ^ n,
        times_step v (10 ^ up) out (10 ^ down) r (10 ^ n) e,
        mul-lt-mul_of_pos_right l (pow_pos n),
      )

take-drop : (n : ℕ) (t : Text) → take n t ++ drop n t ≡ t
take-drop zero t = refl
take-drop (suc n) [] = refl
take-drop (suc n) (c ∷ t) = ap (λ s. c ∷ s) (take-drop n t)

pub All-drop : (n : ℕ) (t : Text) → All IsDigit t → All IsDigit (drop n t)
All-drop zero t h = h
All-drop (suc n) [] h = tt
All-drop (suc n) (c ∷ t) (d, h) = All-drop n t h

-- Digits behind a number are the rest of a rounding.
behind-Rounded :
    (t d : Text) → All IsDigit d → Rounded (decimal_onto 0 (t ++ d)) 0 (length d) (decimal_onto 0 t)
unfolding Rounded
behind-Rounded t d h =
    let e = onto-append 0 t d in
    let f = onto-shift (decimal_onto 0 t) d in (decimal_onto 0 d, omega arith, onto-lt d h)

padded-Rounded : (t : Text) (n : ℕ) → Rounded (decimal_onto 0 t) n 0 (decimal_onto 0 (t ++ zeros n))
unfolding Rounded
padded-Rounded t n =
    let e = onto-append 0 t (zeros n) in
    let f = onto-shift (decimal_onto 0 t) (zeros n) in
    let none = onto-zeros n in
    let len = length-zeros n in
    let g : decimal_onto 0 (t ++ zeros n) ≡ decimal_onto 0 t * 10 ^ n =
      rw (len, none) at (e ∙ f) ∙ omega arith in
    (0, omega arith, omega arith)

-- A fraction that is cut or padded gives the value at its scale.
scaled-Rounded :
    (integer frac : Text) (s : ℕ)
    → All IsDigit frac
    → Rounded
        (decimal_onto 0 (integer ++ frac))
        s
        (length frac)
        (decimal_onto 0 (integer ++ scaled s frac))
unfolding scaled
scaled-Rounded integer frac s h = elim (Bool-cases (ltb s (length frac))) [
  | inl cut ↦
      let whole : (integer ++ take s frac) ++ drop s frac ≡ integer ++ frac =
        append_assoc integer (take s frac) (drop s frac)
        ∙ ap (λ t. integer ++ t) (take-drop s frac) in
      let behind = behind-Rounded (integer ++ take s frac) (drop s frac) (All-drop s frac h) in
      let grown = Rounded-add _ 0 (length (drop s frac)) _ s behind in
      let up : 0 + s ≡ s = omega arith in
      let down : length (drop s frac) + s ≡ length frac =
        (let l = length-drop s frac in let lt = ltb→lt s (length frac) cut in omega arith) in
      rw cut (rw (whole, up, down) at grown)
  | inr pad ↦
      let n = s - length frac in
      let grown = Rounded-add _ n 0 _ (length frac) (padded-Rounded (integer ++ frac) n) in
      let up : n + length frac ≡ s = ground arith in
      let down : 0 + length frac ≡ length frac = omega arith in
      let whole = append_assoc integer frac (zeros n) in rw pad (rw (whole, up, down) at grown)
]

-- How many digits stand before the point, and how many zeros lead behind it.
abbrev pub int_chars : ℤ → ℕ
int_chars (pos w) = (w + 1) * 4
int_chars (negsuc m) = 0

abbrev pub leading : ℤ → ℕ
leading (pos w) = 0
leading (negsuc m) = m * 4

pub zeros-IsDigit : (n : ℕ) (t : Text) → All IsDigit t → All IsDigit (zeros n ++ t)
zeros-IsDigit zero t h = h
zeros-IsDigit (suc n) t h = ((omega arith, omega arith), zeros-IsDigit n t h)

Rounded-then : (v n x s y : ℕ) → Rounded v n 0 x → Rounded x s 0 y → Rounded v (n + s) 0 y
unfolding Rounded
Rounded-then v n x s y (r, e, l) (q, f, k) =
    let exact : v * 10 ^ n ≡ x = omega arith in
    let out : x * 10 ^ s ≡ y = omega arith in
    let power = pow_add n s in
    let both : v * 10 ^ n * 10 ^ s ≡ y = ap (λ z. z * 10 ^ s) exact ∙ out in
    (0, rw power (grind arith), omega arith)

onto-or_zero_trim :
    (t u : Text) → decimal_onto 0 (or_zero (trim_zeros t) ++ u) ≡ decimal_onto 0 (t ++ u)
onto-or_zero_trim t u =
    onto-append 0 (or_zero (trim_zeros t)) u
    ∙ (ap (λ n. decimal_onto n u) (onto-trim_zeros t) ∙ sym (onto-append 0 t u))

-- The two parts, the fraction at its scale, hold the value of the digits.
pub parts-Rounded :
    (weight : ℤ) (digits : Text) (s : ℕ)
    → All IsDigit digits
    → Rounded
        (decimal_onto 0 digits)
        (int_chars weight + s)
        (length digits + leading weight)
        (decimal_onto 0 (or_zero (parts weight digits).0 ++ scaled s (parts weight digits).1))
unfolding parts Rounded decimal_onto
parts-Rounded (negsuc m) digits s h =
    let frac = zeros (m * 4) ++ digits in
    let base = scaled-Rounded (b'0' ∷ []) frac s (zeros-IsDigit (m * 4) digits h) in
    let whole : decimal_onto 0 frac ≡ decimal_onto 0 digits =
      onto-append 0 (zeros (m * 4)) digits ∙ ap (λ n. decimal_onto n digits) (onto-zeros (m * 4)) in
    let up : 0 + s ≡ s = omega arith in
    let down : length frac ≡ length digits + m * 4 =
      (let l = length-append (zeros (m * 4)) digits in
        let z = length-zeros (m * 4) in omega arith) in
    rw up (rw (whole, down) at base)
parts-Rounded (pos w) digits s h =
    let k = (w + 1) * 4 in
    elim (Bool-cases (leb (length digits) k)) [
      | inl fits ↦
          let n = k - length digits in
          let t = digits ++ zeros n in
          let base = scaled-Rounded (or_zero (trim_zeros t)) [] s tt in
          let whole : decimal_onto 0 (or_zero (trim_zeros t) ++ []) ≡ decimal_onto 0 t =
            onto-or_zero_trim t [] ∙ ap (λ u. decimal_onto 0 u) (append-nil t) in
          let both =
            Rounded-then (decimal_onto 0 digits) n _ s _ (padded-Rounded digits n)
              (rw whole at base) in
          let grown = Rounded-add _ (n + s) 0 _ (length digits) both in
          let up : n + s + length digits ≡ k + s = ground arith in
          let down : 0 + length digits ≡ length digits + 0 = omega arith in
          rw fits (rw (up, down) at grown)
      | inr split ↦
          let base =
            scaled-Rounded (or_zero (trim_zeros (take k digits))) (drop k digits) s
              (All-drop k digits h) in
          let whole : decimal_onto 0 (or_zero (trim_zeros (take k digits)) ++ drop k digits)
              ≡ decimal_onto 0 digits =
            onto-or_zero_trim (take k digits) (drop k digits)
            ∙ ap (λ u. decimal_onto 0 u) (take-drop k digits) in
          let grown = Rounded-add _ s (length (drop k digits)) _ k (rw whole at base) in
          let up : s + k ≡ k + s = omega arith in
          let down : length (drop k digits) + k ≡ length digits + 0 =
            (let l = length-drop k digits in ground arith) in
          rw split (rw (up, down) at grown)
    ]
