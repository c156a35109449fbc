-- ===== src/Word/Xor.antt =====
-- The laws of `^` and `|` that a comparison of bytes in constant time stands on.
use Prim.Native.Nat.{bit_or, bit_xor, bit_xor-bitwise, digits, differ}
use pg_x.Base.{ℕ, zero, suc, ◌+◌, ◌*◌, ◌/◌, ◌%◌, ◌<◌, ◌≤◌, ◌≡◌, refl, arith}
use pg_x.Word.Bits.{bit_or_step}

abbrev xor_digits : ℕ → ℕ → ℕ → ℕ
xor_digits n a b = digits (λ b. b) differ n a b

xor_digits_fuel : (n m a b : ℕ) → a ≤ n → a ≤ m → xor_digits n a b ≡ xor_digits m a b
xor_digits_fuel zero zero a b p q = refl
xor_digits_fuel zero (suc m) zero b p q = refl
xor_digits_fuel zero (suc m) (suc a) b p q = absurd (omega arith)
xor_digits_fuel (suc n) zero zero b p q = refl
xor_digits_fuel (suc n) zero (suc a) b p q = absurd (omega arith)
xor_digits_fuel (suc n) (suc m) zero b p q = refl
xor_digits_fuel (suc n) (suc m) (suc a) b p q =
    omega (arith, xor_digits_fuel n m (suc a / 2) (b / 2) (omega arith) (omega arith))

differ-eq_zero : (a b : ℕ) → differ a b ≡ 0 → a ≡ b
differ-eq_zero zero b h = omega arith
differ-eq_zero (suc a) zero h = absurd (omega arith)
differ-eq_zero (suc a) (suc b) h = omega (arith, differ-eq_zero a b h)

differ_self : (a : ℕ) → differ a a ≡ 0
differ_self zero = refl
differ_self (suc a) = differ_self a

differ-lt : (a b : ℕ) → a < 2 → b < 2 → differ a b < 2
differ-lt zero b p q = q
differ-lt (suc a) zero p q = p
differ-lt (suc zero) (suc zero) p q = omega arith
differ-lt (suc zero) (suc (suc b)) p q = absurd (omega arith)
differ-lt (suc (suc a)) (suc b) p q = absurd (omega arith)

differ-differ : (a b : ℕ) → a < 2 → b < 2 → differ (differ a b) b ≡ a
differ-differ zero zero p q = refl
differ-differ zero (suc zero) p q = refl
differ-differ zero (suc (suc b)) p q = absurd (omega arith)
differ-differ (suc zero) zero p q = refl
differ-differ (suc zero) (suc zero) p q = refl
differ-differ (suc zero) (suc (suc b)) p q = absurd (omega arith)
differ-differ (suc (suc a)) b p q = absurd (omega arith)

bit_xor_step : (a b : ℕ) → bit_xor a b ≡ bit_xor (a / 2) (b / 2) * 2 + differ (a % 2) (b % 2)
bit_xor_step zero b = omega (arith, bit_xor-bitwise 0 b, bit_xor-bitwise 0 (b / 2))
bit_xor_step (suc a) b = omega (
  arith,
  bit_xor-bitwise (suc a) b,
  bit_xor-bitwise (suc a / 2) (b / 2),
  xor_digits_fuel a (suc a / 2) (suc a / 2) (b / 2) (omega arith) (omega arith),
)

bit_or-zero_to : (n a b : ℕ) → a ≤ n → b ≤ n → bit_or a b ≡ 0 → (a ≡ 0) × (b ≡ 0)
bit_or-zero_to zero a b p q h = (omega arith, omega arith)
bit_or-zero_to (suc n) a b p q h =
    let step = bit_or_step a b in
    let (x, y) = bit_or-zero_to n (a / 2) (b / 2) (omega arith) (omega arith) (omega arith) in
    (omega arith, omega arith)

-- `a | b == 0` only for `a == 0` and `b == 0`.
pub bit_or-eq_zero : (a b : ℕ) → bit_or a b ≡ 0 → (a ≡ 0) × (b ≡ 0)
bit_or-eq_zero a b h = bit_or-zero_to (a + b) a b (omega arith) (omega arith) h

bit_xor-zero_to : (n a b : ℕ) → a ≤ n → b ≤ n → bit_xor a b ≡ 0 → a ≡ b
bit_xor-zero_to zero a b p q h = omega arith
bit_xor-zero_to (suc n) a b p q h =
    let step = bit_xor_step a b in
    let low = differ-eq_zero (a % 2) (b % 2) (omega arith) in
    let high = bit_xor-zero_to n (a / 2) (b / 2) (omega arith) (omega arith) (omega arith) in
    omega arith

-- `a ^ b == 0` only for equal numbers.
pub bit_xor-eq_zero : (a b : ℕ) → bit_xor a b ≡ 0 → a ≡ b
bit_xor-eq_zero a b h = bit_xor-zero_to (a + b) a b (omega arith) (omega arith) h

bit_xor-twice_to : (n a b : ℕ) → a ≤ n → b ≤ n → bit_xor (bit_xor a b) b ≡ a
bit_xor-twice_to zero zero zero p q = refl
bit_xor-twice_to zero zero (suc b) p q = absurd (omega arith)
bit_xor-twice_to zero (suc a) b p q = absurd (omega arith)
bit_xor-twice_to (suc n) a b p q =
    let step = bit_xor_step a b in
    let small = differ-lt (a % 2) (b % 2) (omega arith) (omega arith) in
    let high : bit_xor a b / 2 ≡ bit_xor (a / 2) (b / 2) = omega arith in
    let low : bit_xor a b % 2 ≡ differ (a % 2) (b % 2) = omega arith in
    let again = bit_xor_step (bit_xor a b) b in
    let upper = bit_xor-twice_to n (a / 2) (b / 2) (omega arith) (omega arith) in
    let lower = differ-differ (a % 2) (b % 2) (omega arith) (omega arith) in
    let plain = rw (high, low, upper, lower) at again in omega arith

-- `a ^ b ^ b` is `a`.
pub bit_xor-twice : (a b : ℕ) → bit_xor (bit_xor a b) b ≡ a
bit_xor-twice a b = bit_xor-twice_to (a + b) a b (omega arith) (omega arith)

bit_xor_self_to : (n a : ℕ) → a ≤ n → bit_xor a a ≡ 0
bit_xor_self_to zero zero h = refl
bit_xor_self_to zero (suc a) h = absurd (omega arith)
bit_xor_self_to (suc n) a h =
    let step = bit_xor_step a a in
    let high = bit_xor_self_to n (a / 2) (omega arith) in
    let low = differ_self (a % 2) in omega arith

-- `a ^ a` is 0.
pub bit_xor_self : (a : ℕ) → bit_xor a a ≡ 0
bit_xor_self a = bit_xor_self_to a a (omega arith)
