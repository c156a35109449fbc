-- ===== src/Consume/DeliveryTag.antt =====
-- consumer/trait.rs: the handle by which a broker's message is settled; for Kafka, a partition and
-- an offset in one `u64`.
use Prim.Native.Nat.{bit_or}
use pg_x.Base.{ℕ, ◌+◌, ◌*◌, ◌/◌, ◌%◌, ◌^◌, ◌≤◌, ◌<◌, ◌≡◌, ◌≢◌, ap, ◌∙◌, arith}
use pg_x.Base.Int.{ℤ, pos, negsuc, to_signed, to_unsigned, InRange, to_signed-to_unsigned}
use pg_x.Word.{u32_mod, u64_mod}
use pg_x.Word.Bits.{bit_or-shifted}

abbrev pub DeliveryTag : Type 0
DeliveryTag = ℕ

-- `partition as u64` extends the sign; the shift drops what passes 64 bits.
unfoldable pub kafka : ℤ → ℤ → DeliveryTag
unfolding to_unsigned
kafka partition offset =
    bit_or (to_unsigned u64_mod partition * 2 ^ 32 % u64_mod) (to_unsigned u64_mod offset)

unfoldable pub kafka_position : DeliveryTag → ℤ × ℤ
unfolding to_signed
kafka_position tag = (to_signed u32_mod (tag / 2 ^ 32 % u32_mod), pos (tag % 2 ^ 32))

-- The high half of the tag holds the 32-bit pattern of the partition.
high_half :
    (partition : ℤ)
    → to_unsigned u64_mod partition * 2 ^ 32 % u64_mod
      ≡ to_unsigned u64_mod partition % 2 ^ 32 * 2 ^ 32
high_half partition = omega arith

narrow : (z : ℤ) → InRange u32_mod z → to_unsigned u64_mod z % 2 ^ 32 ≡ to_unsigned u32_mod z
unfolding to_unsigned
narrow (pos n) h = omega arith
narrow (negsuc n) h = omega arith

halves : (p o : ℕ) → p < 2 ^ 32 → o < 2 ^ 32 → (p * 2 ^ 32 + o) / 2 ^ 32 % u32_mod ≡ p
halves p o h k = omega arith

pos-injective : {m n : ℕ} → pos m ≡ pos n → m ≡ n
pos-injective e = cc

pair_eq : {a b : ℤ} {m n : ℕ} → a ≡ b → m ≡ n → ◌≡◌ {A = ℤ × ℤ} (a, pos m) (b, pos n)
pair_eq p q = cc

-- A 32-bit signed partition and an offset below 2 ^ 32 come back from the tag.
pub kafka_position-kafka :
    (partition : ℤ) (offset : ℕ)
    → InRange u32_mod partition
    → offset < 2 ^ 32
    → kafka_position (kafka partition (pos offset)) ≡ (partition, pos offset)
unfolding kafka_position kafka
kafka_position-kafka partition offset h k =
    let p = to_unsigned u64_mod partition % 2 ^ 32 in
    let o : offset % u64_mod ≡ offset = omega arith in
    let small : p < 2 ^ 32 = omega arith in
    rw (high_half partition, o, bit_or-shifted 32 p offset k)
      (pair_eq
        (ap (to_signed u32_mod) (halves p offset small k ∙ narrow partition h)
          ∙ to_signed-to_unsigned u32_mod partition h)
        (omega arith))

-- An offset from 2 ^ 32 on never comes back from the tag, whatever the partition.
kafka_position_loses :
    (partition : ℤ) (offset : ℕ)
    → 2 ^ 32 ≤ offset
    → kafka_position (kafka partition (pos offset)) ≢ (partition, pos offset)
unfolding kafka_position
kafka_position_loses partition offset h e = omega (arith, pos-injective (ap (λ r. r.1) e))
