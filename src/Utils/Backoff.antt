-- ===== src/Utils/Backoff.antt =====
-- utils/backoff.rs: the delay before a retry. The random `u64` is an argument.
use Prim.Native.Nat.{min}
use pg_x.Base.{ℕ, ◌+◌, ◌-◌, ◌*◌, ◌/◌, ◌%◌, ◌^◌, ◌≤◌, ◌<◌, arith}
use native.Mathlib.Nat.{mod-lt}
use pg_x.Word.{u64_mod}

-- `saturating_mul` of `u64`.
abbrev saturating_mul : ℕ → ℕ → ℕ
saturating_mul a b = min (a * b) (u64_mod - 1)

-- The delay before jitter: doubled for each attempt after the first, and capped.
unfoldable pub capped_base : ℕ → ℕ → ℕ → ℕ
capped_base attempt base_ms max_ms =
    let shift = min (attempt - 1) 62 in min (saturating_mul base_ms (2 ^ shift)) max_ms

-- The sum is one of `u64`: it wraps where checks for overflow are off.
unfoldable pub delay : ℕ → ℕ → ℕ → ℕ → ℕ
unfolding capped_base
delay random attempt base_ms max_ms =
    let base = capped_base attempt base_ms max_ms in
    let jitter = base / 5 in min ((base - jitter + random % (jitter * 2 + 1)) % u64_mod) max_ms

capped_base-le : (attempt base_ms max_ms : ℕ) → capped_base attempt base_ms max_ms ≤ max_ms
unfolding capped_base
capped_base-le attempt base_ms max_ms = omega arith

-- The jitter, for any base below the cap.
delay_of_base :
    (random base max_ms : ℕ)
    → base ≤ max_ms
    → max_ms + max_ms / 5 < u64_mod
    → (min ((base - base / 5 + random % (base / 5 * 2 + 1)) % u64_mod) max_ms ≤ max_ms)
      × (base - base / 5 ≤ min ((base - base / 5 + random % (base / 5 * 2 + 1)) % u64_mod) max_ms)
      × (min ((base - base / 5 + random % (base / 5 * 2 + 1)) % u64_mod) max_ms ≤ base + base / 5)
delay_of_base random base max_ms le h =
    let r : random % (base / 5 * 2 + 1) < base / 5 * 2 + 1 = mod-lt random (omega arith) in
    omega arith

pub delay-le : (random attempt base_ms max_ms : ℕ) → delay random attempt base_ms max_ms ≤ max_ms
unfolding delay
delay-le random attempt base_ms max_ms = omega arith

-- Where the cap leaves a fifth of room below 2 ^ 64, the delay is at most the cap, and within a
-- fifth of the capped base, above and below.
pub delay_bounds :
    (random attempt base_ms max_ms : ℕ)
    → max_ms + max_ms / 5 < u64_mod
    → (delay random attempt base_ms max_ms ≤ max_ms)
      × (capped_base attempt base_ms max_ms - capped_base attempt base_ms max_ms / 5
          ≤ delay random attempt base_ms max_ms)
      × (delay random attempt base_ms max_ms
          ≤ capped_base attempt base_ms max_ms + capped_base attempt base_ms max_ms / 5)
unfolding delay
delay_bounds random attempt base_ms max_ms h =
    delay_of_base random (capped_base attempt base_ms max_ms) max_ms
      (capped_base-le attempt base_ms max_ms) h
